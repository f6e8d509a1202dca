-- ===== src/Store/Ensures.antt =====
-- What an action returns and leaves in the tables, one rule for each way to build an action.
use ai_token_mall.Prelude.{
  ℕ, ◌+◌, ◌≡◌, refl, sym, subst, arith, Bool, true, false, Option, none, some, List, [], ◌∷◌,
  if◌then◌else◌,
}
use ai_token_mall.Store.Action.{
  Tables, Db, Error, Outcome, ok, err, Action, pure, raise, ◌>>=◌, consume, query, exec, insert,
  catch, map_error, transaction, raise_if, require,
}

-- The outcome is an error, or its value and tables have `Q`.
abbrev pub Returns : {A : Type 0} → (A → Tables → Type 0) → Outcome A → Type 0
Returns Q (ok a db) = Q a db.tables
Returns Q (err e db) = Unit

-- From the tables `t`, whatever faults are due, the action raises or returns with `Q`.
pub record Ensures {A : Type 0} (m : Action A) (Q : A → Tables → Type 0) (t : Tables) : Type 0 where
  pub at : (db : Db) → db.tables ≡ t → Returns Q (m db)

module _ {A : Type 0} (Q : A → Tables → Type 0) where
  consume-Returns :
      (m : Action A) (t : Tables) (faults : List Bool) (db : Db)
      → ((db' : Db) → db'.tables ≡ t → Returns Q (m db'))
      → db.tables ≡ t
      → Returns Q (consume faults m db)
  unfolding consume
  consume-Returns m t [] db k h = k db h
  consume-Returns m t (true ∷ rest) db k h = tt
  consume-Returns m t (false ∷ rest) db k h = k (record db { faults = rest }) h

  -- A rolled back action has raised, so nothing is claimed of its tables.
  transaction-Returns :
      (o : Outcome A) (t : Tables)
      → Returns Q o
      → Returns Q (elim o [ ok a db ↦ ok a db | err e db ↦ err e (record db { tables = t }) ])
  transaction-Returns (ok a db) t h = h
  transaction-Returns (err e db) t h = tt

  any-Returns : (o : Outcome A) → ((a : A) (t' : Tables) → Q a t') → Returns Q o
  any-Returns (ok a db) h = h a db.tables
  any-Returns (err e db) h = tt

  weaken-Returns :
      (R : A → Tables → Type 0) (o : Outcome A)
      → ((a : A) (t' : Tables) → Q a t' → R a t')
      → Returns Q o
      → Returns R o
  weaken-Returns R (ok a db) k h = k a db.tables h
  weaken-Returns R (err e db) k h = tt

  map_error-Returns :
      (f : Error → Error) (o : Outcome A)
      → Returns Q o
      → Returns Q (elim o [ ok a db ↦ ok a db | err e db ↦ raise (f e) db ])
  unfolding raise
  map_error-Returns f (ok a db) h = h
  map_error-Returns f (err e db) h = tt

bind-Returns :
    {A B : Type 0} (R : B → Tables → Type 0) (o : Outcome A) (f : A → Action B)
    → Returns (λ a t'. Ensures (f a) R t') o
    → Returns R (elim o [ ok a db ↦ f a db | err e db ↦ err e db ])
bind-Returns R (ok a db) f h = h.at db refl
bind-Returns R (err e db) f h = tt

insert-Returns :
    (Q : ℕ → Tables → Type 0) (f : ℕ → Tables → Tables) (db : Db) (clash : Bool)
    → (clash ≡ false → Q db.seq (f db.seq db.tables))
    → Returns Q (
        if clash
        then err Error.duplicate_entry db
        else ok db.seq (record db { tables = f db.seq db.tables; seq = db.seq + 1 }))
insert-Returns Q f db true k = tt
insert-Returns Q f db false k = k refl

module _ {A : Type 0} {Q : A → Tables → Type 0} {t : Tables} where
  pub Ensures-pure : (a : A) → Q a t → Ensures (pure a) Q t
  unfolding pure
  Ensures-pure a h = record { at = λ db e. subst (Q a) (sym e) h }

  pub Ensures-raise : (e : Error) → Ensures (raise e) Q t
  unfolding raise
  Ensures-raise e = record { at = λ db h. tt }

  -- A condition that holds of whatever the action leaves.
  pub Ensures-any : (m : Action A) → ((a : A) (t' : Tables) → Q a t') → Ensures m Q t
  Ensures-any m h = record { at = λ db _. any-Returns Q (m db) h }

  pub Ensures-query : (f : Tables → A) → Q (f t) t → Ensures (query f) Q t
  unfolding query
  Ensures-query f h = record {
    at = λ db. consume-Returns Q _ t db.faults db (λ db' e'. subst (λ s. Q (f s) s) (sym e') h);
  }

  pub Ensures-require :
      (o : Option A) (e : Error) → ((a : A) → o ≡ some a → Q a t) → Ensures (require o e) Q t
  Ensures-require none e k = Ensures-raise e
  Ensures-require (some a) e k = Ensures-pure a (k a refl)

  pub Ensures-transaction : {m : Action A} → Ensures m Q t → Ensures (transaction m) Q t
  unfolding transaction
  Ensures-transaction {m} e = record {
    at = λ db h. transaction-Returns Q (m db) db.tables (e.at db h);
  }

  pub Ensures-map_error :
      (f : Error → Error) {m : Action A} → Ensures m Q t → Ensures (map_error f m) Q t
  unfolding map_error
  Ensures-map_error f {m} e = record { at = λ db h. map_error-Returns Q f (m db) (e.at db h) }

  pub Ensures-weaken :
      {m : Action A} {R : A → Tables → Type 0}
      → Ensures m Q t
      → ((a : A) (t' : Tables) → Q a t' → R a t')
      → Ensures m R t
  Ensures-weaken {m} {R} e k = record { at = λ db h. weaken-Returns Q R (m db) k (e.at db h) }

  pub Ensures-if :
      (b : Bool) {m n : Action A}
      → (b ≡ true → Ensures m Q t)
      → (b ≡ false → Ensures n Q t)
      → Ensures (if b then m else n) Q t
  Ensures-if true km kn = km refl
  Ensures-if false km kn = kn refl

  pub Ensures-consequence :
      {m : Action A} (R : A → Tables → Type 0)
      → Ensures m R t
      → ((a : A) (t' : Tables) → R a t' → Q a t')
      → Ensures m Q t
  Ensures-consequence {m} R e k = record { at = λ db h. weaken-Returns R Q (m db) k (e.at db h) }

module _ {Q : Unit {0} → Tables → Type 0} {t : Tables} where
  pub Ensures-exec : (f : Tables → Tables) → Q tt (f t) → Ensures (exec f) Q t
  unfolding exec
  Ensures-exec f h = record {
    at = λ db. consume-Returns Q _ t db.faults db (λ db' e'. subst (λ s. Q tt (f s)) (sym e') h);
  }

  pub Ensures-raise_if : (b : Bool) (e : Error) → (b ≡ false → Q tt t) → Ensures (raise_if b e) Q t
  Ensures-raise_if true e k = Ensures-raise e
  Ensures-raise_if false e k = Ensures-pure tt (k refl)

module _ {Q : ℕ → Tables → Type 0} {t : Tables} where
  pub Ensures-insert :
      (clash : Tables → ℕ → Bool) (f : ℕ → Tables → Tables)
      → ((n : ℕ) → clash t n ≡ false → Q n (f n t))
      → Ensures (insert clash f) Q t
  unfolding insert
  Ensures-insert clash f h = record {
    at = λ db. consume-Returns Q _ t db.faults db (λ db' e'.
        insert-Returns Q f db' (clash db'.tables db'.seq) (λ c.
          subst (λ s. clash s db'.seq ≡ false → Q db'.seq (f db'.seq s)) (sym e') (h db'.seq) c));
  }

pub Ensures-bind :
    {A B : Type 0} {R : B → Tables → Type 0} {t : Tables} {m : Action A} {f : A → Action B}
    → Ensures m (λ a t'. Ensures (f a) R t') t
    → Ensures (m >>= f) R t
unfolding ◌>>=◌
Ensures-bind {R} {m} {f} e = record { at = λ db h. bind-Returns R (m db) f (e.at db h) }

-- An action that only reads, and then another one.
pub Ensures-then :
    {A B : Type 0} {R : B → Tables → Type 0} {t : Tables} {m : Action A} {f : A → Action B}
    → Ensures m (λ _ s. s ≡ t) t
    → ((a : A) → Ensures (f a) R t)
    → Ensures (m >>= f) R t
Ensures-then {R} {f} same k =
    Ensures-bind (Ensures-weaken same λ a s e. subst (Ensures (f a) R) (sym e) (k a))

-- An insert whose error is dropped: it has happened, or nothing has.
module _ (Q : Unit {0} → Tables → Type 0) (t : Tables) (clash : Tables → ℕ → Bool)
    (f : ℕ → Tables → Tables) where
  swallow_row :
      (db : Db) (b : Bool)
      → clash db.tables db.seq ≡ b
      → db.tables ≡ t
      → Q tt t
      → ((n : ℕ) → clash t n ≡ false → Q tt (f n t))
      → Returns Q (
          catch
            ((λ db'.
                if b
                then err Error.duplicate_entry db'
                else ok db'.seq (record db' { tables = f db'.seq db'.tables; seq = db'.seq + 1 }))
              >>= λ _. pure tt)
            (λ _. pure tt)
            db)
  unfolding catch ◌>>=◌ pure
  swallow_row db true c e h k = subst (Q tt) (sym e) h
  swallow_row db false c e h k =
      subst (λ s. clash s db.seq ≡ false → Q tt (f db.seq s)) (sym e) (k db.seq) c

  swallow-Returns :
      (faults : List Bool) (db : Db)
      → db.tables ≡ t
      → Q tt t
      → ((n : ℕ) → clash t n ≡ false → Q tt (f n t))
      → Returns Q (
          catch
            (consume faults (λ db'.
                if clash db'.tables db'.seq
                then err Error.duplicate_entry db'
                else ok db'.seq (record db' { tables = f db'.seq db'.tables; seq = db'.seq + 1 }))
              >>= λ _. pure tt)
            (λ _. pure tt)
            db)
  unfolding consume catch ◌>>=◌ pure
  swallow-Returns [] db e h k = swallow_row db _ refl e h k
  swallow-Returns (true ∷ rest) db e h k = subst (Q tt) (sym e) h
  swallow-Returns (false ∷ rest) db e h k = swallow_row (record db { faults = rest }) _ refl e h k

  pub Ensures-catch-insert :
      Q tt t
      → ((n : ℕ) → clash t n ≡ false → Q tt (f n t))
      → Ensures (catch (insert clash f >>= λ _. pure tt) (λ _. pure tt)) Q t
  unfolding insert catch ◌>>=◌ pure
  Ensures-catch-insert h k = record { at = λ db e. swallow-Returns db.faults db e h k }

-- A transaction that raises leaves every table as it was.
pub transaction_rolls_back :
    {A : Type 0} (m : Action A) (db : Db) {e : Error} {db' : Db}
    → transaction m db ≡ err e db'
    → db'.tables ≡ db.tables
unfolding transaction
transaction_rolls_back m db h = ground arith

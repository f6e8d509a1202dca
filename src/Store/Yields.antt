-- ===== src/Store/Yields.antt =====
-- What an action returns when no statement fails: it does return.
use ai_token_mall.Prelude.{
  ℕ, ◌+◌, ◌≡◌, refl, sym, subst, arith, Bool, false, Option, some, List, [], ◌∷◌, if◌then◌else◌,
}
use ai_token_mall.Store.Action.{
  Tables, Db, Error, Outcome, ok, err, Action, pure, raise, ◌>>=◌, consume, query, exec, insert,
  map_error, transaction, catch, raise_if, require,
}

-- The outcome is a value, with tables that have `Q`, and still no fault is due.
abbrev pub Yielded : {A : Type 0} → (A → Tables → Type 0) → Outcome A → Type 0
Yielded Q (ok a db) = Q a db.tables × (db.faults ≡ [])
Yielded Q (err e db) = ⊥

-- From the tables `t`, while no fault is due, the action returns with `Q`.
pub record Yields {A : Type 0} (m : Action A) (Q : A → Tables → Type 0) (t : Tables) : Type 0 where
  pub at : (db : Db) → db.tables ≡ t → db.faults ≡ [] → Yielded Q (m db)

module _ {A : Type 0} (Q : A → Tables → Type 0) where
  consume-Yielded :
      (m : Action A) (t : Tables) (faults : List Bool) (db : Db)
      → faults ≡ []
      → Yielded Q (m db)
      → Yielded Q (consume faults m db)
  unfolding consume
  consume-Yielded m t [] db e h = h
  consume-Yielded m t (b ∷ rest) db e h = absurd (ground arith)

  transaction-Yielded :
      (o : Outcome A) (t : Tables)
      → Yielded Q o
      → Yielded Q (elim o [ ok a db ↦ ok a db | err e db ↦ err e (record db { tables = t }) ])
  transaction-Yielded (ok a db) t h = h
  transaction-Yielded (err e db) t h = absurd h

  map_error-Yielded :
      (f : Error → Error) (o : Outcome A)
      → Yielded Q o
      → Yielded Q (elim o [ ok a db ↦ ok a db | err e db ↦ raise (f e) db ])
  map_error-Yielded f (ok a db) h = h
  map_error-Yielded f (err e db) h = absurd h

bind-Yielded :
    {A B : Type 0} (R : B → Tables → Type 0) (o : Outcome A) (f : A → Action B)
    → Yielded (λ a t'. Yields (f a) R t') o
    → Yielded R (elim o [ ok a db ↦ f a db | err e db ↦ err e db ])
bind-Yielded R (ok a db) f h = h.0.at db refl h.1
bind-Yielded R (err e db) f h = absurd h

module _ {A : Type 0} {Q : A → Tables → Type 0} {t : Tables} where
  pub Yields-pure : (a : A) → Q a t → Yields (pure a) Q t
  unfolding pure
  Yields-pure a h = record { at = λ db e n. (subst (Q a) (sym e) h, n) }

  pub Yields-query : (f : Tables → A) → Q (f t) t → Yields (query f) Q t
  unfolding query
  Yields-query f h = record {
    at = λ db e n. consume-Yielded Q _ t db.faults db n (subst (λ s. Q (f s) s) (sym e) h, n);
  }

  pub Yields-require :
      (o : Option A) (e : Error) (a : A) → o ≡ some a → Q a t → Yields (require o e) Q t
  Yields-require o e a found h = rw found (Yields-pure a h)

  pub Yields-transaction : {m : Action A} → Yields m Q t → Yields (transaction m) Q t
  unfolding transaction
  Yields-transaction {m} y = record {
    at = λ db e n. transaction-Yielded Q (m db) db.tables (y.at db e n);
  }

  pub Yields-map_error :
      (f : Error → Error) {m : Action A} → Yields m Q t → Yields (map_error f m) Q t
  unfolding map_error
  Yields-map_error f {m} y = record { at = λ db e n. map_error-Yielded Q f (m db) (y.at db e n) }

pub Yields-raise_if :
    {Q : Unit {0} → Tables → Type 0} {t : Tables} (b : Bool) (e : Error)
    → b ≡ false
    → Q tt t
    → Yields (raise_if b e) Q t
Yields-raise_if b e skip h = rw skip (Yields-pure tt h)

pub Yields-exec :
    {Q : Unit {0} → Tables → Type 0} {t : Tables} (f : Tables → Tables)
    → Q tt (f t)
    → Yields (exec f) Q t
unfolding exec
Yields-exec {Q} {t} f h = record {
  at = λ db e n. consume-Yielded Q _ t db.faults db n (subst (λ s. Q tt (f s)) (sym e) h, n);
}

module _ (Q : ℕ → Tables → Type 0) (f : ℕ → Tables → Tables) where
  insert-Yielded :
      (db : Db) (clash : Bool)
      → clash ≡ false
      → Q db.seq (f db.seq db.tables)
      → db.faults ≡ []
      → Yielded Q (
          if clash
          then err Error.duplicate_entry db
          else ok db.seq (record db { tables = f db.seq db.tables; seq = db.seq + 1 }))
  insert-Yielded db clash free h n = rw free (h, n)

pub Yields-insert :
    {Q : ℕ → Tables → Type 0} {t : Tables} (clash : Tables → ℕ → Bool) (f : ℕ → Tables → Tables)
    → ((n : ℕ) → clash t n ≡ false)
    → ((n : ℕ) → Q n (f n t))
    → Yields (insert clash f) Q t
unfolding insert
Yields-insert {Q} {t} clash f free h = record {
  at = λ db e n. consume-Yielded Q _ t db.faults db n (
      insert-Yielded Q f db _ (subst (λ s. clash s db.seq ≡ false) (sym e) (free db.seq))
        (subst (λ s. Q db.seq (f db.seq s)) (sym e) (h db.seq)) n);
}

pub Yields-bind :
    {A B : Type 0} {R : B → Tables → Type 0} {t : Tables} {m : Action A} {f : A → Action B}
    → Yields m (λ a t'. Yields (f a) R t') t
    → Yields (m >>= f) R t
unfolding ◌>>=◌
Yields-bind {R} {m} {f} y = record { at = λ db e n. bind-Yielded R (m db) f (y.at db e n) }

catch-Yielded :
    {A : Type 0} (Q : A → Tables → Type 0) (o : Outcome A) (handler : Error → Action A)
    → Yielded Q o
    → Yielded Q (elim o [ ok a db ↦ ok a db | err e db ↦ handler e db ])
catch-Yielded Q (ok a db) handler h = h
catch-Yielded Q (err e db) handler h = absurd h

pub Yields-catch :
    {A : Type 0} {Q : A → Tables → Type 0} {t : Tables} {m : Action A} (handler : Error → Action A)
    → Yields m Q t
    → Yields (catch m handler) Q t
unfolding catch
Yields-catch {Q} {m} handler y = record {
  at = λ db e n. catch-Yielded Q (m db) handler (y.at db e n);
}

weaken-Yielded :
    {A : Type 0} (Q R : A → Tables → Type 0) (o : Outcome A)
    → ((a : A) (s : Tables) → Q a s → R a s)
    → Yielded Q o
    → Yielded R o
weaken-Yielded Q R (ok a db) k h = (k a db.tables h.0, h.1)
weaken-Yielded Q R (err e db) k h = h

pub Yields-weaken :
    {A : Type 0} {Q R : A → Tables → Type 0} {t : Tables} {m : Action A}
    → Yields m Q t
    → ((a : A) (s : Tables) → Q a s → R a s)
    → Yields m R t
Yields-weaken {Q} {R} {m} y k = record { at = λ db e n. weaken-Yielded Q R (m db) k (y.at db e n) }

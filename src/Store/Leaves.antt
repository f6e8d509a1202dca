-- ===== src/Store/Leaves.antt =====
-- What an action leaves in the tables whether it returns or raises, one rule for each way to build an
-- action. An error that a caller only logs leaves what was written before it.
use ai_token_mall.Prelude.{
  ℕ, ◌+◌, ◌≡◌, refl, sym, subst, Bool, true, false, Option, none, some, List, [], ◌∷◌,
  if◌then◌else◌,
}
use ai_token_mall.Store.Action.{
  Tables, Db, Error, Outcome, ok, err, Action, tables_of, pure, raise, ◌>>=◌, consume, query, exec,
  insert, catch, map_error, require,
}
use ai_token_mall.Store.Ensures.{Ensures, Returns}

-- From the tables `t`, whatever faults are due, the tables that the action leaves have `I`.
pub record Leaves {A : Type 0} (m : Action A) (I : Tables → Type 0) (t : Tables) : Type 0 where
  pub at : (db : Db) → db.tables ≡ t → I (tables_of (m db))

module _ (I : Tables → Type 0) where
  consume-leaves :
      {A : Type 0} (m : Action A) (t : Tables) (faults : List Bool) (db : Db)
      → I t
      → ((db' : Db) → db'.tables ≡ t → I (tables_of (m db')))
      → db.tables ≡ t
      → I (tables_of (consume faults m db))
  unfolding consume
  consume-leaves m t [] db i k h = k db h
  consume-leaves m t (true ∷ rest) db i k h = subst I (sym h) i
  consume-leaves m t (false ∷ rest) db i k h = k (record db { faults = rest }) h

  insert-leaves :
      (f : ℕ → Tables → Tables) (db : Db) (clash : Bool)
      → I db.tables
      → I (f db.seq db.tables)
      → I (
          tables_of (
            if clash
            then err Error.duplicate_entry db
            else ok db.seq (record db { tables = f db.seq db.tables; seq = db.seq + 1 })))
  insert-leaves f db true i k = i
  insert-leaves f db false i k = k

  bind-leaves :
      {A B : Type 0} (o : Outcome A) (f : A → Action B)
      → I (tables_of o)
      → ((a : A) (t : Tables) → I t → Leaves (f a) I t)
      → I (tables_of {A = B} (elim o [ ok a db ↦ f a db | err e db ↦ err e db ]))
  bind-leaves (ok a db) f i k = (k a db.tables i).at db refl
  bind-leaves (err e db) f i k = i

  after-leaves :
      {A B : Type 0} (Q : A → Tables → Type 0) (o : Outcome A) (f : A → Action B)
      → I (tables_of o)
      → Returns Q o
      → ((a : A) (t : Tables) → Q a t → Leaves (f a) I t)
      → I (tables_of {A = B} (elim o [ ok a db ↦ f a db | err e db ↦ err e db ]))
  after-leaves Q (ok a db) f i q k = (k a db.tables q).at db refl
  after-leaves Q (err e db) f i q k = i

  catch-leaves :
      {A : Type 0} (o : Outcome A) (handler : Error → Action A)
      → I (tables_of o)
      → ((e : Error) (t : Tables) → I t → Leaves (handler e) I t)
      → I (tables_of (elim o [ ok a db ↦ ok a db | err e db ↦ handler e db ]))
  catch-leaves (ok a db) handler i k = i
  catch-leaves (err e db) handler i k = (k e db.tables i).at db refl

  map_error-leaves :
      {A : Type 0} (o : Outcome A) (f : Error → Error)
      → I (tables_of o)
      → I (tables_of (elim o [ ok a db ↦ ok a db | err e db ↦ raise {A = A} (f e) db ]))
  unfolding raise
  map_error-leaves (ok a db) f i = i
  map_error-leaves (err e db) f i = i

  leaves-Returns : {A : Type 0} (o : Outcome A) → I (tables_of o) → Returns (λ _ s. I s) o
  leaves-Returns (ok a db) i = i
  leaves-Returns (err e db) i = tt

module _ {I : Tables → Type 0} {t : Tables} where
  -- What is left in any case is left when the action returns.
  pub Ensures-Leaves : {A : Type 0} {m : Action A} → Leaves m I t → Ensures m (λ _ s. I s) t
  Ensures-Leaves {m} l = record { at = λ db e. leaves-Returns I (m db) (l.at db e) }

  pub Leaves-raise : {A : Type 0} (e : Error) → I t → Leaves (raise {A = A} e) I t
  unfolding raise
  Leaves-raise e i = record { at = λ db h. subst I (sym h) i }

  pub Leaves-map_error :
      {A : Type 0} (f : Error → Error) {m : Action A} → Leaves m I t → Leaves (map_error f m) I t
  unfolding map_error
  Leaves-map_error f {m} l = record { at = λ db e. map_error-leaves I (m db) f (l.at db e) }

  pub Leaves-pure : {A : Type 0} (a : A) → I t → Leaves (pure a) I t
  unfolding pure
  Leaves-pure a i = record { at = λ db e. subst I (sym e) i }

  pub Leaves-require : {A : Type 0} (o : Option A) (e : Error) → I t → Leaves (require o e) I t
  Leaves-require none e i = Leaves-raise e i
  Leaves-require (some a) e i = Leaves-pure a i

  pub Leaves-query : {A : Type 0} (f : Tables → A) → I t → Leaves (query f) I t
  unfolding query
  Leaves-query f i = record {
    at = λ db. consume-leaves I _ t db.faults db i (λ db' e. subst I (sym e) i);
  }

  pub Leaves-exec : (f : Tables → Tables) → I t → I (f t) → Leaves (exec f) I t
  unfolding exec
  Leaves-exec f i k = record {
    at = λ db. consume-leaves I _ t db.faults db i (λ db' e. subst (λ s. I (f s)) (sym e) k);
  }

  pub Leaves-insert :
      (clash : Tables → ℕ → Bool) (f : ℕ → Tables → Tables)
      → I t
      → ((n : ℕ) → I (f n t))
      → Leaves (insert clash f) I t
  unfolding insert
  Leaves-insert clash f i k = record {
    at = λ db. consume-leaves I _ t db.faults db i (λ db' e.
        insert-leaves I f db' (clash db'.tables db'.seq) (subst I (sym e) i)
          (subst (λ s. I (f db'.seq s)) (sym e) (k db'.seq)));
  }

  pub Leaves-catch :
      {A : Type 0} {m : Action A} {handler : Error → Action A}
      → Leaves m I t
      → ((e : Error) (s : Tables) → I s → Leaves (handler e) I s)
      → Leaves (catch m handler) I t
  unfolding catch
  Leaves-catch {m} {handler} l k = record {
    at = λ db e. catch-leaves I (m db) handler (l.at db e) k;
  }

  pub Leaves-if :
      {A : Type 0} (b : Bool) {m n : Action A}
      → (b ≡ true → Leaves m I t)
      → (b ≡ false → Leaves n I t)
      → Leaves (if b then m else n) I t
  Leaves-if true km kn = km refl
  Leaves-if false km kn = kn refl

  -- The continuation runs from tables of which only `I` is known.
  pub Leaves-bind :
      {A B : Type 0} {m : Action A} {f : A → Action B}
      → Leaves m I t
      → ((a : A) (s : Tables) → I s → Leaves (f a) I s)
      → Leaves (m >>= f) I t
  unfolding ◌>>=◌
  Leaves-bind {m} {f} l k = record { at = λ db e. bind-leaves I (m db) f (l.at db e) k }

  -- The continuation runs from what a value and the tables are known to be.
  pub Leaves-after :
      {A B : Type 0} {m : Action A} {f : A → Action B} (Q : A → Tables → Type 0)
      → Leaves m I t
      → Ensures m Q t
      → ((a : A) (s : Tables) → Q a s → Leaves (f a) I s)
      → Leaves (m >>= f) I t
  unfolding ◌>>=◌
  Leaves-after {m} {f} Q l q k = record {
    at = λ db e. after-leaves I Q (m db) f (l.at db e) (q.at db e) k;
  }

-- ===== src/Store/Atomic.antt =====
-- Actions that are all or nothing: when they raise, every table is as it was.
use ai_token_mall.Prelude.{
  ◌≡◌, refl, sym, ◌∙◌, arith, Bool, true, false, Option, none, some, List, [], ◌∷◌,
}
use ai_token_mall.Store.Action.{
  Tables, Db, Error, Outcome, ok, err, tables_of, Action, pure, raise, ◌>>=◌, consume, query,
  map_error, transaction, raise_if, require,
}

-- Whatever the outcome, the tables are as they were.
pub record ReadOnly {A : Type 0} (m : Action A) : Type 0 where
  pub reads : (db : Db) → tables_of (m db) ≡ db.tables

abbrev NoChange : {A : Type 0} → Outcome A → Tables → Type 0
NoChange (ok a db) t = Unit
NoChange (err e db) t = db.tables ≡ t

pub record Atomic {A : Type 0} (m : Action A) : Type 0 where
  pub whole : (db : Db) → NoChange (m db) db.tables

module _ {A : Type 0} where
  pub ReadOnly-require : (o : Option A) (e : Error) → ReadOnly (require o e)
  unfolding pure raise
  ReadOnly-require none e = record { reads = λ db. refl }
  ReadOnly-require (some a) e = record { reads = λ db. refl }

  query_reads :
      (f : Tables → A) (faults : List Bool) (db : Db)
      → tables_of (consume faults (λ db'. ok (f db'.tables) db') db) ≡ db.tables
  unfolding consume
  query_reads f [] db = refl
  query_reads f (true ∷ rest) db = refl
  query_reads f (false ∷ rest) db = refl

  pub ReadOnly-query : (f : Tables → A) → ReadOnly (query f)
  unfolding query
  ReadOnly-query f = record { reads = λ db. query_reads f db.faults db }

  map_error_reads :
      (f : Error → Error) (o : Outcome A)
      → tables_of (elim o [ ok a db ↦ ok a db | err e db ↦ raise {A = A} (f e) db ]) ≡ tables_of o
  unfolding raise
  map_error_reads f (ok a db) = refl
  map_error_reads f (err e db) = refl

  pub ReadOnly-map_error :
      (f : Error → Error) {m : Action A} → ReadOnly m → ReadOnly (map_error f m)
  unfolding map_error
  ReadOnly-map_error f {m} r = record { reads = λ db. map_error_reads f (m db) ∙ r.reads db }

  rolled_back :
      (o : Outcome A) (t : Tables)
      → NoChange (elim o [ ok a db ↦ ok a db | err e db ↦ err e (record db { tables = t }) ]) t
  rolled_back (ok a db) t = tt
  rolled_back (err e db) t = refl

  pub Atomic-transaction : (m : Action A) → Atomic (transaction m)
  unfolding transaction
  Atomic-transaction m = record { whole = λ db. rolled_back (m db) db.tables }

  map_error_whole :
      (f : Error → Error) (o : Outcome A) (t : Tables)
      → NoChange o t
      → NoChange (elim o [ ok a db ↦ ok a db | err e db ↦ raise {A = A} (f e) db ]) t
  unfolding raise
  map_error_whole f (ok a db) t h = tt
  map_error_whole f (err e db) t h = h

  pub Atomic-map_error : (f : Error → Error) {m : Action A} → Atomic m → Atomic (map_error f m)
  unfolding map_error
  Atomic-map_error f {m} a = record {
    whole = λ db. map_error_whole f (m db) db.tables (a.whole db);
  }

  raised_whole :
      (o : Outcome A) (t : Tables) (e : Error) (db : Db)
      → NoChange o t
      → o ≡ err e db
      → db.tables ≡ t
  raised_whole (ok a db') t e db h eq = ground arith
  raised_whole (err e' db') t e db h eq = ground arith

  pub Atomic-raises :
      {m : Action A} (db db' : Db) (e : Error)
      → Atomic m
      → m db ≡ err e db'
      → db'.tables ≡ db.tables
  Atomic-raises {m} db db' e a eq = raised_whole (m db) db.tables e db' (a.whole db) eq

pub ReadOnly-raise_if : (b : Bool) (e : Error) → ReadOnly (raise_if b e)
unfolding pure raise
ReadOnly-raise_if true e = record { reads = λ db. refl }
ReadOnly-raise_if false e = record { reads = λ db. refl }

module _ {A B : Type 0} where
  bind_whole :
      (o : Outcome A) (f : A → Action B) (t : Tables)
      → tables_of o ≡ t
      → ((a : A) → Atomic (f a))
      → NoChange (elim o [ ok a db ↦ f a db | err e db ↦ err e db ]) t
  bind_whole (ok a db) f t h k = rw (sym h) ((k a).whole db)
  bind_whole (err e db) f t h k = h

  pub Atomic-bind :
      {m : Action A} {f : A → Action B} → ReadOnly m → ((a : A) → Atomic (f a)) → Atomic (m >>= f)
  unfolding ◌>>=◌
  Atomic-bind {m} {f} r k = record { whole = λ db. bind_whole (m db) f db.tables (r.reads db) k }

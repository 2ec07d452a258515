-- ===== src/Database/Atomic.antt =====
-- Transactions of store.go as functions on the tables: what `withTx` commits, and when it fails.
use ccs2_plus.Prelude.{
  ◌≡◌, refl, sym, ◌∙◌, ◌⊎◌, inl, inr, String, Bool, true, false, ◌||◌, Bool-cases, Option, none,
  some, List, [], ◌∷◌, if◌then◌else◌, arith,
}
use ccs2_plus.Database.{
  Db, StoreError, Result, ok, err, Conn, Action, pure, raise, continue, ◌>>=◌, Outcome, done,
  failed, statement, transaction, with_tx, next_fault, later_faults, settle, on_pending, begin_tx,
  rollback, commit, close_tx, run_tx,
}

-- Whether some call of the driver is to fail.
unfoldable pub has_fault : List Bool → Bool
has_fault [] = false
has_fault (b ∷ faults) = b || has_fault faults

fewer_refl : (faults : List Bool) → (has_fault faults ≡ false) ⊎ (has_fault faults ≡ true)
fewer_refl faults = elim (Bool-cases (has_fault faults)) [ inl e ↦ inr e | inr e ↦ inl e ]

later_faults_fewer :
    (faults : List Bool) → (has_fault (later_faults faults) ≡ false) ⊎ (has_fault faults ≡ true)
unfolding has_fault
later_faults_fewer [] = inl refl
later_faults_fewer (true ∷ faults) = inr refl
later_faults_fewer (false ∷ faults) = fewer_refl faults

next_fault_any : (faults : List Bool) → next_fault faults ≡ true → has_fault faults ≡ true
unfolding has_fault
next_fault_any faults h = ground arith

module _ {A : Type 0} where
  -- What an action in a transaction may do where `spec` is what it is to do to the tables: the working
  -- copy is what `spec` makes of it, or an error is one of `spec` or the driver's.
  abbrev pub Follows : {R : Type 0} → Outcome A R → Conn A → Result R × Conn A → Type 0
  Follows spec c (ok r, c') =
      (db : Db A) × (spec ≡ done r db)
      × (c'.pending ≡ some db)
      × (c'.committed ≡ c.committed)
      × ((has_fault c'.faults ≡ false) ⊎ (has_fault c.faults ≡ true))
  Follows spec c (err e, c') =
      (c'.committed ≡ c.committed) × ((has_fault c.faults ≡ true) ⊎ (spec ≡ failed e.cause))

  abbrev pub Runs : {R : Type 0} → Action A R → (Db A → Outcome A R) → Type 0
  Runs m spec = (c : Conn A) (db : Db A) → c.pending ≡ some db → Follows (spec db) c (m c)

  -- One step of a description after another.
  unfoldable pub chain : {R S : Type 0} → Outcome A R → (R → Db A → Outcome A S) → Outcome A S
  chain (done r db) t = t r db
  chain (failed cause) t = failed cause

  settle-Follows :
      {R : Type 0} (context : String) (c d : Conn A) (o : Outcome A R)
      → d.committed ≡ c.committed
      → (has_fault d.faults ≡ false) ⊎ (has_fault c.faults ≡ true)
      → Follows o c (settle context d o)
  settle-Follows context c d (done r db) h i = (db, refl, refl, h, i)
  settle-Follows context c d (failed cause) h i = (h, inr refl)

  on_pending-Follows :
      {R : Type 0} (context : String) (sql : Db A → Outcome A R) (c d : Conn A) (db : Db A)
      (p : Option (Db A))
      → p ≡ some db
      → d.committed ≡ c.committed
      → (has_fault d.faults ≡ false) ⊎ (has_fault c.faults ≡ true)
      → Follows (sql db) c (on_pending context sql d p)
  on_pending-Follows context sql c d db p h same fewer =
      rw h (settle-Follows context c d (sql db) same fewer)

  pub Runs-statement :
      {R : Type 0} (context : String) (sql : Db A → Outcome A R) → Runs (statement context sql) sql
  unfolding statement
  Runs-statement context sql c db h = elim (Bool-cases (next_fault c.faults)) [
    | inl e ↦ rw e (refl, inl (next_fault_any c.faults e))
    | inr e ↦ rw e (
        on_pending-Follows context sql c (record c { faults = later_faults c.faults }) db c.pending
          h refl (later_faults_fewer c.faults))
  ]

  widen :
      {S : Type 0} (c d : Conn A) (s : Outcome A S) (o : Result S × Conn A)
      → d.committed ≡ c.committed
      → (has_fault d.faults ≡ false) ⊎ (has_fault c.faults ≡ true)
      → Follows s d o
      → Follows s c o
  widen c d s (ok r, d') same fewer (db, e, p, same', fewer') =
      (db, e, p, same' ∙ same, ground arith)
  widen c d s (err x, d') same fewer (same', fewer') = (same' ∙ same, ground arith)

  continue-Follows :
      {R S : Type 0} (c : Conn A) (s : Outcome A R) (o : Result R × Conn A) (f : R → Action A S)
      (t : R → Db A → Outcome A S)
      → Follows s c o
      → ((r : R) → Runs (f r) (t r))
      → Follows (chain s t) c (continue o.0 f o.1)
  unfolding chain
  continue-Follows c s (ok r, d) f t (db, e, pend, same, fewer) h =
      rw (e, chain) (widen c d (t r db) (f r d) same fewer (h r d db pend))
  continue-Follows c s (err e, d) f t (same, fewer) h =
      (same, elim fewer [ inl e ↦ inl e | inr e ↦ inr (rw e refl) ])

  pub Runs-bind :
      {R S : Type 0} (m : Action A R) (s : Db A → Outcome A R) (f : R → Action A S)
      (t : R → Db A → Outcome A S)
      → Runs m s
      → ((r : R) → Runs (f r) (t r))
      → Runs (m >>= f) (λ db. chain (s db) t)
  unfolding ◌>>=◌
  Runs-bind m s f t hm hf c db h = continue-Follows c (s db) (m c) f t (hm c db h) hf

  pub Runs-pure : {R : Type 0} (r : R) → Runs (pure r) (λ db. done r db)
  unfolding pure
  Runs-pure r c db h = (db, refl, h, refl, fewer_refl c.faults)

  pub Runs-raise : (R : Type 0) (e : StoreError) → Runs {R = R} (raise e) (λ db. failed e.cause)
  unfolding raise
  Runs-raise R e c db h = (refl, inr refl)

  -- What a transaction that is to do `spec` to the tables may return and commit: after a success the
  -- committed tables are those of `spec`; after an error they are as before, and the error is one of
  -- `spec` or the driver's. No transaction stays open.
  abbrev pub Settled : Outcome A Unit → Conn A → Result Unit × Conn A → Type 0
  Settled spec c (ok r, c') = (spec ≡ done tt c'.committed) × (c'.pending ≡ none)
  Settled spec c (err e, c') =
      (c'.committed ≡ c.committed)
      × (c'.pending ≡ none)
      × ((has_fault c.faults ≡ true) ⊎ (spec ≡ failed e.cause))

  commit-Settled :
      (context : String) (spec : Outcome A Unit) (c d : Conn A) (db : Db A)
      → spec ≡ done tt db
      → d.pending ≡ some db
      → d.committed ≡ c.committed
      → (has_fault d.faults ≡ false) ⊎ (has_fault c.faults ≡ true)
      → Settled spec c (commit context d)
  unfolding commit
  commit-Settled context spec c d db e p same fewer = elim (Bool-cases (next_fault d.faults)) [
    | inl n ↦ rw n (same, refl, inl (ground (arith, next_fault_any d.faults n)))
    | inr n ↦ rw n (rw p (e, refl))
  ]

  close_tx-Settled :
      (context : String) (spec : Outcome A Unit) (c : Conn A) (o : Result Unit × Conn A)
      → Follows spec c o
      → Settled spec c (close_tx context o)
  unfolding close_tx rollback
  close_tx-Settled context spec c (ok r, d) (db, e, p, same, fewer) =
      commit-Settled context spec c d db e p same fewer
  close_tx-Settled context spec c (err x, d) (same, fewer) = (same, refl, fewer)

  pub transaction-Settled :
      (starting ending : String) (fn : Action A Unit) (spec : Db A → Outcome A Unit) (c : Conn A)
      → Runs fn spec
      → c.pending ≡ none
      → Settled (spec c.committed) c (transaction starting ending fn c)
  unfolding transaction begin_tx run_tx
  transaction-Settled starting ending fn spec c h p =
      let d : Conn A = record c { pending = some c.committed; faults = later_faults c.faults } in
      elim (Bool-cases (next_fault c.faults)) [
        | inl n ↦ rw n (refl, p, inl (next_fault_any c.faults n))
        | inr n ↦ rw n (
            close_tx-Settled ending (spec c.committed) c (fn d) (
              widen c d (spec c.committed) (fn d) refl (later_faults_fewer c.faults)
                (h d c.committed refl)))
      ]

  -- Where the function of a transaction does `spec` to the working copy, `withTx` commits what `spec`
  -- makes of the committed tables, or fails and leaves them as they were; it fails only where `spec`
  -- or a call of the driver does.
  pub with_tx-Settled :
      (fn : Action A Unit) (spec : Db A → Outcome A Unit) (c : Conn A)
      → Runs fn spec
      → c.pending ≡ none
      → Settled (spec c.committed) c (with_tx fn c)
  unfolding with_tx
  with_tx-Settled fn spec c h p =
      transaction-Settled "begin sqlite tx" "commit sqlite tx" fn spec c h p

  pub Runs-eq :
      {R : Type 0} (m : Action A R) (s t : Db A → Outcome A R)
      → Runs m s
      → ((db : Db A) → s db ≡ t db)
      → Runs m t
  Runs-eq m s t h e c db p = rw (sym (e db)) (h c db p)

  pub Runs-if :
      {R : Type 0} (b : Bool) (m n : Action A R) (s t : Db A → Outcome A R)
      → Runs m s
      → Runs n t
      → Runs (if b then m else n) (λ db. if b then s db else t db)
  Runs-if true m n s t h k = h
  Runs-if false m n s t h k = k

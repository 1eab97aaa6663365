-- ===== src/Control/Queries.antt =====
-- `query` (internal/control/client.go) against a running switch.
use vibe_switch.Base.{
  ℕ, suc, ◌≡◌, refl, sym, ◌∙◌, codes, bytes_eq, ◌||◌, arith, Bytes, Bool, true, false, Option, none,
  some, List, [], ◌∷◌, Returns, All, if◌then◌else◌,
}
use vibe_switch.Base.Float.{Floats}
use vibe_switch.Engine.{Engine}
use vibe_switch.Engine.Wired.{IsWired}
use vibe_switch.Stats.{fdb_snapshot}
use vibe_switch.Stats.Rows.{fdb_snapshot_returns}
use vibe_switch.Control.{
  Target, fdb, ports, stats, rate, config, all, unknown, target_of, done, unknown_target, replies,
  Connection, answered, show_rate, query_one, query_each, query_target, query,
}

-- The targets that the help of the client lists.
abbrev pub query_names : List Bytes
query_names =
    codes "config" ∷ codes "ports" ∷ codes "fdb" ∷ codes "stats" ∷ codes "rate" ∷ codes "all" ∷ []

abbrev pub is_query_name : Bytes → List Bytes → Bool
is_query_name what [] = false
is_query_name what (name ∷ names) = bytes_eq what name || is_query_name what names

abbrev is_known : Target → Bool
is_known fdb = true
is_known ports = true
is_known stats = true
is_known rate = true
is_known config = true
is_known all = true
is_known unknown = false

is_known_lem : (what : Bytes) → is_known (target_of what) ≡ is_query_name what query_names
unfolding target_of
is_known_lem what = ground arith

there {ℓ κ} : {A : Type ℓ} (P : A → Type κ) (o : Option A) → Returns o P → (a : A) × (o ≡ some a)
there P none h = elim h [ ]
there P (some a) h = (a, refl)

module _ (fl : Floats) where
  -- The switch behind a connection: a wired engine at each call.
  pub record IsServed (conn : Connection fl) : Type 0 where
    pub engine : ℕ → Engine
    pub now : ℕ → ℕ
    pub wired : (n : ℕ) → IsWired (engine n)
    pub served : (n : ℕ) → conn.call n ≡ replies fl (engine n) (now n)

  query_one_lem :
      (conn : Connection fl) (n : ℕ) (t : Target)
      → IsServed conn
      → (query_one fl conn n t).ended ≡ (if is_known t then done else unknown_target)
  unfolding query_one answered show_rate replies
  query_one_lem conn n fdb s =
      let (rows, there_are) =
        there (λ rows. Unit {0}) (fdb_snapshot fl (s.engine n) (s.now n))
          (fdb_snapshot_returns fl (s.engine n) (s.now n) (s.wired n)) in
      rw (s.served n, there_are) refl
  query_one_lem conn n ports s = rw (s.served n) refl
  query_one_lem conn n stats s = rw (s.served n) refl
  query_one_lem conn n rate s = rw (s.served n, s.served (suc n), show_rate) refl
  query_one_lem conn n config s = rw (s.served n) refl
  query_one_lem conn n all s = refl
  query_one_lem conn n unknown s = refl

  query_each_lem :
      (conn : Connection fl) (n : ℕ) (subs : List Bytes)
      → IsServed conn
      → All (λ sub. is_known (target_of sub) ≡ true) subs
      → (query_each fl conn n subs).ended ≡ done
  unfolding query_each
  query_each_lem conn n [] s h = refl
  query_each_lem conn n (sub ∷ subs) s h =
      let q = query_one fl conn n (target_of sub) in
      let fine : q.ended ≡ done = query_one_lem conn n (target_of sub) s ∙ rw (h.0) refl in
      rw (fine, query_each) (query_each_lem conn q.next_call subs s h.1)

  query_target_lem :
      (conn : Connection fl) (n : ℕ) (t : Target)
      → IsServed conn
      → (query_target fl conn n t).ended ≡ (if is_known t then done else unknown_target)
  unfolding query_target target_of
  query_target_lem conn n all s = query_each_lem conn n _ s (refl, (refl, (refl, (refl, tt))))
  query_target_lem conn n fdb s = query_one_lem conn n fdb s
  query_target_lem conn n ports s = query_one_lem conn n ports s
  query_target_lem conn n stats s = query_one_lem conn n stats s
  query_target_lem conn n rate s = query_one_lem conn n rate s
  query_target_lem conn n config s = query_one_lem conn n config s
  query_target_lem conn n unknown s = query_one_lem conn n unknown s

  -- Against a switch whose engine is wired at every call, a query of `config`, `ports`, `fdb`,
  -- `stats`, `rate` or `all` ends without an error; every other target is refused.
  pub query_lem :
      (conn : Connection fl) (n : ℕ) (what : Bytes)
      → IsServed conn
      → (query fl conn n what).ended
        ≡ (if is_query_name what query_names then done else unknown_target)
  unfolding query
  query_lem conn n what s =
      rw (sym (is_known_lem what)) (query_target_lem conn n (target_of what) s)

-- ===== src/Macros/Server/Steps.antt =====
-- The generated calls, one at a time, on a table whose names were checked.
use jsonrpseex.Prelude.{
  String, ◌≡◌, ◌≢◌, refl, arith, none, some, Option-cases, List, [], ◌∷◌, ◌++◌, Bool, true, false,
  ◌&&◌, String-discrete, ite, inl, inr,
}
use jsonrpseex.Prelude.Map
use jsonrpseex.Prelude.Map.{Map}
use jsonrpseex.Types.Result.{ok}
use jsonrpseex.Server.Runtime.{Runtime}
use jsonrpseex.Server.Calls.{MethodCallback}
use jsonrpseex.Server.Methods.{
  method, verify_method_name, verify_and_insert, register_alias, verify_and_register_unsubscribe,
}
use jsonrpseex.Server.Module.{Table, register_subscription}
use jsonrpseex.Macros.Server.{
  Checked, contains, check_name, Call, register, subscribe, alias, call, calls,
}

append-ne : (ns : List String) (n : String) → ns ++ n ∷ [] ≢ []
append-ne [] n h = cc h
append-ne (x ∷ ns) n h = cc h

-- A name that was checked without a new error is new.
pub check_name_new :
    (n : String) (s : Checked)
    → (check_name n s).errors ≡ []
    → (s.errors ≡ [])
      × (contains n s.registered ≡ false)
      × ((check_name n s).registered ≡ n ∷ s.registered)
unfolding check_name
check_name_new n s h = ground (arith, append-ne s.errors n)

pub contains-cons :
    (j n : String) (ns : List String)
    → contains j (n ∷ ns) ≡ ite (String-discrete n j) true (contains j ns)
unfolding contains
contains-cons j n ns = refl

module _ (rt : Runtime) {St : Type 0} where
  -- Every name of the table was checked.
  unfoldable pub Tracks : List String → Table rt St → Type 0
  Tracks ns m = (n : String) (c : MethodCallback rt St) → method m n ≡ some c → contains n ns ≡ true

  unfoldable pub Grows : Table rt St → Table rt St → Type 0
  Grows m m' = (n : String) (c : MethodCallback rt St) → method m n ≡ some c → method m' n ≡ some c

  pub free :
      (ns : List String) (m : Table rt St) (n : String)
      → Tracks ns m
      → contains n ns ≡ false
      → method m n ≡ none
  unfolding Tracks
  free ns m n t h = elim (Option-cases (method m n)) [
    | inl e ↦ e
    | inr (c, e) ↦ absurd (cc (h, t n c e))
  ]

  -- The table with one more name.
  pub record Adds (m : Table rt St) (n : String) (c : MethodCallback rt St) (m' : Table rt St)
      : Type 0 where
    pub at : (j : String) → method m' j ≡ ite (String-discrete n j) (some c) (method m j)

  pub Adds-found :
      (m m' : Table rt St) (n : String) (c : MethodCallback rt St)
      → Adds m n c m'
      → method m' n ≡ some c
  Adds-found m m' n c a = ground (arith, a.at n)

  pub Adds-Grows :
      (m m' : Table rt St) (n : String) (c : MethodCallback rt St)
      → method m n ≡ none
      → Adds m n c m'
      → Grows m m'
  unfolding Grows
  Adds-Grows m m' n c f a j d h = ground (arith, f, h, a.at j)

  pub Adds-Tracks :
      (ns : List String) (m m' : Table rt St) (n : String) (c : MethodCallback rt St)
      → Tracks ns m
      → Adds m n c m'
      → Tracks (n ∷ ns) m'
  unfolding Tracks
  Adds-Tracks ns m m' n c t a j d k = elim (String-discrete n j) [
    | yes e ↦ ground (arith, e, contains-cons j n ns)
    | no e ↦ ground (arith, e, contains-cons j n ns, t j d (ground (arith, a.at j, k, e)))
  ]

  pub call-register :
      (m : Table rt St) (n : String) (c : MethodCallback rt St)
      → method m n ≡ none
      → (m' : Table rt St) × (call rt St (register n c) m ≡ (ok tt, m')) × Adds m n c m'
  unfolding call verify_and_insert
  call-register m n c f = (
    Map.insert String-discrete m n c,
    ground (arith, f),
    record { at = λ j. Map.get-insert String-discrete m n j c },
  )

  pub call-alias :
      (m : Table rt St) (a existing : String) (c : MethodCallback rt St)
      → method m a ≡ none
      → method m existing ≡ some c
      → (m' : Table rt St) × (call rt St (alias a existing) m ≡ (ok tt, m')) × Adds m a c m'
  unfolding call register_alias verify_method_name
  call-alias m a existing c f e = (
    Map.insert String-discrete m a c,
    ground (arith, f, e),
    record { at = λ j. Map.get-insert String-discrete m a j c },
  )

  pub call-subscribe :
      (m : Table rt St) (n u : String) (sc uc : MethodCallback rt St)
      → method m n ≡ none
      → method m u ≡ none
      → n ≢ u
      → (m1 m2 : Table rt St) × (call rt St (subscribe n u sc uc) m ≡ (ok tt, m2))
        × Adds m u uc m1
        × Adds m1 n sc m2
        × (method m1 n ≡ none)
  unfolding call register_subscription verify_and_register_unsubscribe verify_method_name
      verify_and_insert
  call-subscribe m n u sc uc f g ne =
      let m1 = Map.insert String-discrete m u uc in
      let h : method m1 n ≡ none = ground (arith, ne, f, Map.get-insert String-discrete m u n uc) in
      (
        m1,
        Map.insert String-discrete m1 n sc,
        ground (arith, f, g, ne, h),
        record { at = λ j. Map.get-insert String-discrete m u j uc },
        record { at = λ j. Map.get-insert String-discrete m1 n j sc },
        h,
      )

  -- All calls succeeded, and every name of the table is among those that were checked.
  pub record Extends (ns : List String) (m : Table rt St) (out : Bool × Table rt St) : Type 0 where
    pub all_ok : out.0 ≡ true
    pub tracks : Tracks ns out.1
    pub grows : Grows m out.1

  calls-append :
      (cs ds : List (Call rt St)) (m : Table rt St)
      → calls rt St (cs ++ ds) m
        ≡ (let (r, m1) = calls rt St cs m in let (r', m2) = calls rt St ds m1 in (r && r', m2))
  unfolding calls
  calls-append [] ds m = ground arith
  calls-append (c ∷ cs) ds m = ground (arith, calls-append cs ds (call rt St c m).1)

  pub Grows-trans : (m1 m2 m3 : Table rt St) → Grows m1 m2 → Grows m2 m3 → Grows m1 m3
  unfolding Grows
  Grows-trans m1 m2 m3 g h n c e = h n c (g n c e)

  -- Calls after calls that succeeded.
  pub calls-append_ok :
      (cs ds : List (Call rt St)) (m : Table rt St)
      → (calls rt St cs m).0 ≡ true
      → calls rt St (cs ++ ds) m ≡ calls rt St ds (calls rt St cs m).1
  calls-append_ok cs ds m e = ground (arith, e, calls-append cs ds m)

  pub calls-cons_ok :
      (c : Call rt St) (cs : List (Call rt St)) (m m' : Table rt St)
      → call rt St c m ≡ (ok tt, m')
      → calls rt St (c ∷ cs) m ≡ calls rt St cs m'
  unfolding calls
  calls-cons_ok c cs m m' e = ground (arith, e)

  pub calls-nil : (m : Table rt St) → calls rt St [] m ≡ (true, m)
  unfolding calls
  calls-nil m = refl

  pub Grows-refl : (m : Table rt St) → Grows m m
  unfolding Grows
  Grows-refl m n c e = e

  pub Extends-after :
      (ns : List String) (m m' : Table rt St) (out : Bool × Table rt St)
      → Grows m m'
      → Extends ns m' out
      → Extends ns m out
  Extends-after ns m m' out g x = record {
    all_ok = x.all_ok;
    tracks = x.tracks;
    grows = Grows-trans m m' out.1 g x.grows;
  }

  pub Extends-nil :
      (ns : List String) (m : Table rt St) → Tracks ns m → Extends ns m (calls rt St [] m)
  unfolding calls
  Extends-nil ns m t = record { all_ok = refl; tracks = t; grows = Grows-refl m }

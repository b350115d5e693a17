-- ===== src/Server/Hosts/Allowed.antt =====
-- Which requests pass the filter.
use jsonrpseex.Prelude.{
  ◌≡◌, ◌⊎◌, Bool-cases, inl, inr, refl, arith, Option, none, some, Option-cases, List, [], ◌∷◌,
  ◌++◌, Bool, true, false, ◌||◌, ite,
}
use jsonrpseex.Prelude.Map
use jsonrpseex.Prelude.Map.{Map}
use jsonrpseex.Types.Error.{Json}
use jsonrpseex.Server.Hosts.{
  Port, any, default, fixed, Authority, uniq_hosts, push_port, port_allows, any_port, on_handler,
  recognize,
}

abbrev no_hosts : Map Json (List Port)
no_hosts = Map.empty

module _ (dec : Discrete Json) where
  -- Whether a host stands in the list with a port that allows this one.
  listed : List Authority → Json → Port → Bool
  listed [] host port = false
  listed (a ∷ as_) host port =
      ite (dec a.host host) (port_allows a.port port) false || listed as_ host port

  any_port-append :
      (ps qs : List Port) (port : Port)
      → any_port (ps ++ qs) port ≡ (any_port ps port || any_port qs port)
  unfolding any_port
  any_port-append [] qs port = refl
  any_port-append (p ∷ ps) qs port = ground (arith, any_port-append ps qs port)

  pushed :
      (a : Authority) (m : Map Json (List Port)) (host : Json) (port : Port)
      → on_handler (Map.get dec (push_port dec a m (Map.get dec m a.host)) host) port ≡ (
          on_handler (Map.get dec m host) port
          || ite (dec a.host host) (port_allows a.port port) false)
  unfolding on_handler push_port any_port
  pushed a m host port = elim (Option-cases (Map.get dec m a.host)) [
    | inl n ↦ ground (arith, n, Map.get-insert dec m a.host host (a.port ∷ []))
    | inr (ports, n) ↦ ground (
      arith,
      n,
      Map.get-insert dec m a.host host (ports ++ a.port ∷ []),
      any_port-append ports (a.port ∷ []) port,
    )
  ]

  uniq_hosts_lem :
      (as_ : List Authority) (m : Map Json (List Port)) (host : Json) (port : Port)
      → on_handler (Map.get dec (uniq_hosts dec as_ m) host) port
        ≡ (on_handler (Map.get dec m host) port || listed as_ host port)
  unfolding uniq_hosts listed
  uniq_hosts_lem [] m host port = ground arith
  uniq_hosts_lem (a ∷ as_) m host port = ground (
    arith,
    uniq_hosts_lem as_ (push_port dec a m (Map.get dec m a.host)) host port,
    pushed a m host port,
  )

  nothing : (host : Json) → Map.get dec no_hosts host ≡ none
  nothing host = Map.get-empty dec host

  module _ (matches : Json → Json → Bool) where
    -- Whether a port of the list admits another: a wildcard admits all, and else they are the same.
    abbrev pub Admits : Port → Port → Type 0
    Admits pattern_ other = (pattern_ ≡ any) ⊎ (pattern_ ≡ other)

    port_allows-Admits : (p q : Port) → port_allows p q ≡ true → Admits p q
    unfolding port_allows
    port_allows-Admits any q h = inl refl
    port_allows-Admits default default h = inr refl
    port_allows-Admits (fixed m) (fixed n) h = inr (ground (arith, h))
    port_allows-Admits default any h = absurd (cc h)
    port_allows-Admits default (fixed n) h = absurd (cc h)
    port_allows-Admits (fixed m) default h = absurd (cc h)
    port_allows-Admits (fixed m) any h = absurd (cc h)

    -- An authority of the list with a pattern that matches the host and a port that admits the port.
    unfoldable pub Allowed : List Authority → Authority → Type 0
    Allowed [] other = ⊥
    Allowed (a ∷ as_) other =
        ((matches a.host other.host ≡ true) × Admits a.port other.port) ⊎ Allowed as_ other

    listed-Allowed :
        (as_ : List Authority) (pattern_ : Json) (other : Authority)
        → matches pattern_ other.host ≡ true
        → listed as_ pattern_ other.port ≡ true
        → Allowed as_ other
    unfolding listed Allowed
    listed-Allowed [] pattern_ other m l = absurd (cc l)
    listed-Allowed (a ∷ as_) pattern_ other m l = elim (dec a.host pattern_) [
      | no q ↦ inr (listed-Allowed as_ pattern_ other m (ground (arith, q, l)))
      | yes q ↦ elim (Bool-cases (port_allows a.port other.port)) [
        | inl t ↦ inl (ground (arith, q, m), port_allows-Admits a.port other.port t)
        | inr t ↦ inr (listed-Allowed as_ pattern_ other m (ground (arith, q, l, t)))
      ]
    ]

    -- If the router finds only what was added under a pattern that matches the host, then for an
    -- authority that the filter recognizes the list has an authority whose pattern matches the host
    -- and whose port is the wildcard or the same port.
    pub recognize-Allowed :
        (route : Map Json (List Port) → Json → Option (List Port)) (allow_only : List Authority)
        (other : Authority)
        → ((m : Map Json (List Port)) (host : Json) (ports : List Port)
            → route m host ≡ some ports
            → (pattern_ : Json) × (matches pattern_ host ≡ true)
              × (Map.get dec m pattern_ ≡ some ports))
        → recognize dec route allow_only other ≡ true
        → Allowed allow_only other
    unfolding recognize on_handler
    recognize-Allowed route allow_only other law r =
        elim (Option-cases (route (uniq_hosts dec allow_only no_hosts) other.host)) [
          | inl n ↦ absurd (ground (arith, n, r))
          | inr (ports, e) ↦
              let (pattern_, m, g) = law (uniq_hosts dec allow_only no_hosts) other.host ports e in
              listed-Allowed allow_only pattern_ other m (
                ground (
                  arith,
                  e,
                  g,
                  r,
                  uniq_hosts_lem allow_only no_hosts pattern_ other.port,
                  nothing pattern_,
                ))
        ]

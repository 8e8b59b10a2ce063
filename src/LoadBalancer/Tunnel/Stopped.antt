-- ===== src/LoadBalancer/Tunnel/Stopped.antt =====
-- What `removeTunnels` closes and removes.
use cloud_provider_kind.Base.{
  String, ℕ, string_eq, ==-self, ==-ne, ◌≡◌, ◌≢◌, refl, ap, ◌∙◌, sym, some, none, List, [], ◌∷◌,
  inl, inr, In, In-append_left, In-append_right, Option-cases, ◌++◌, append-nil, append_assoc,
}
use cloud_provider_kind.Base.Dict
use cloud_provider_kind.Base.Dict.{Dict}
use cloud_provider_kind.Base.Entries.{contains-order, In-of_contains}
use cloud_provider_kind.LoadBalancer.Tunnel.{
  Tunnel, Tunnels, stop, stop_all, first_ip, remove_ip_command, remove_ip_from_local_interface,
  remove_tunnels,
}
use cloud_provider_kind.World.{Action, close, run, check, Trace, Env, World}

-- The calls of `Stop`, and of the loop of `removeTunnels`.
stop_calls : Tunnel → Trace
stop_calls t = elim t.listener [ none ↦ [] | some ln ↦ close ln ∷ [] ]

unfoldable visit_calls : Dict Tunnel → String → Trace
unfolding stop_calls
visit_calls tuns port = elim (Dict.lookup port tuns) [ none ↦ [] | some t ↦ stop_calls t ]

unfoldable close_calls : Dict Tunnel → List String → Trace
close_calls tuns [] = []
close_calls tuns (port ∷ ports) = close_calls tuns ports ++ visit_calls tuns port

stop-trace :
    (t : Tunnel) (e : Env) (w : World)
    → (stop t e w).1 ≡ record w { trace = stop_calls t ++ w.trace }
unfolding stop stop_calls
stop-trace t e w = elim (Option-cases t.listener) [
  | inl idle ↦ rw (idle, stop, stop_calls) refl
  | inr (ln, listens) ↦ rw (listens, stop, stop_calls) refl
]

module _ (e : Env) (tuns : Dict Tunnel) where
  stop_all-trace :
      (ports : List String) (ip : String) (w : World)
      → (stop_all tuns ports ip e w).1.trace ≡ close_calls tuns ports ++ w.trace
  unfolding stop_all close_calls visit_calls
  stop_all-trace [] ip w = refl
  stop_all-trace (p ∷ ports) ip w = elim (Option-cases (Dict.lookup p tuns)) [
    | inl absent ↦
        rw (absent, stop_all, visit_calls)
          (stop_all-trace ports ip w
            ∙ ap (λ h. h ++ w.trace) (sym (append-nil (close_calls tuns ports))))
    | inr (t, there) ↦
        rw (there, stop_all, visit_calls)
          (stop_all-trace ports _ _
            ∙ ap (λ (v : World). close_calls tuns ports ++ v.trace) (stop-trace t e w)
            ∙ sym (append_assoc (close_calls tuns ports) (stop_calls t) w.trace))
  ]

visit_calls-close :
    (tuns : Dict Tunnel) (port : String) (t : Tunnel) (ln : ℕ)
    → Dict.lookup port tuns ≡ some t
    → t.listener ≡ some ln
    → In (close ln) (visit_calls tuns port)
unfolding visit_calls stop_calls
visit_calls-close tuns port t ln found listens =
    rw (found, visit_calls) (rw (listens, stop_calls) (inl refl))

close_calls-close :
    (tuns : Dict Tunnel) (ports : List String) (port : String) (t : Tunnel) (ln : ℕ)
    → Dict.lookup port tuns ≡ some t
    → t.listener ≡ some ln
    → In port ports
    → In (close ln) (close_calls tuns ports)
unfolding close_calls
close_calls-close tuns [] port t ln found listens i = elim i [ ]
close_calls-close tuns (p ∷ ports) port t ln found listens (inl here) =
    In-append_right (close ln) (close_calls tuns ports) (visit_calls tuns p)
      (rw (← here) (visit_calls-close tuns port t ln found listens))
close_calls-close tuns (p ∷ ports) port t ln found listens (inr later) =
    In-append_left (close ln) (close_calls tuns ports) (visit_calls tuns p)
      (close_calls-close tuns ports port t ln found listens later)

-- All tunnels of a container are on one address.
abbrev pub IsAt : String → Dict Tunnel → Type 0
IsAt ip tuns = (port : String) (t : Tunnel) → Dict.lookup port tuns ≡ some t → t.local_ip ≡ ip

first_ip-at : (ip : String) (t : Tunnel) → ip ≢ "" → first_ip ip t ≡ ip
first_ip-at ip t given = rw (==-ne ip "" given)

module _ (e : Env) (tuns : Dict Tunnel) (ip : String) (at' : IsAt ip tuns) (given : ip ≢ "") where
  stop_all_same : (ports : List String) (w : World) → (stop_all tuns ports ip e w).0 ≡ ip
  unfolding stop_all
  stop_all_same [] w = refl
  stop_all_same (p ∷ ports) w = elim (Option-cases (Dict.lookup p tuns)) [
    | inl absent ↦ rw (absent, stop_all) (stop_all_same ports w)
    | inr (t, there) ↦ rw (there, stop_all) (rw (first_ip-at ip t given) (stop_all_same ports _))
  ]

  stop_all_ip :
      (ports : List String) (w : World) (port : String) (t : Tunnel)
      → Dict.lookup port tuns ≡ some t
      → In port ports
      → (stop_all tuns ports "" e w).0 ≡ ip
  unfolding stop_all
  stop_all_ip [] w port t found i = elim i [ ]
  stop_all_ip (p ∷ ports) w port t found i = elim (Option-cases (Dict.lookup p tuns)) [
    | inl absent ↦ elim i [
      | inl here ↦ let wrong : none ≡ some t = sym absent ∙ rw (← here) found in absurd (cc)
      | inr later ↦ rw (absent, stop_all) (stop_all_ip ports w port t found later)
    ]
    | inr (t', there) ↦
        let first : first_ip "" t' ≡ ip = rw (==-self {A = String} "") (at' p t' there) in
        rw (there, stop_all) (rw first (stop_all_same ports _))
  ]

-- For a container with at least one tunnel, all on one address that is not empty, `removeTunnels`
-- closes the listener of every tunnel, and its last call takes the address from the local
-- interface, whatever closing the listeners came to.
pub remove_tunnels_lem :
    (name port ip : String) (t : Tunnel) (tuns : Dict Tunnel) (ts : Tunnels) (e : Env) (w : World)
    → Dict.lookup name ts ≡ some tuns
    → Dict.lookup port tuns ≡ some t
    → IsAt ip tuns
    → ip ≢ ""
    → (calls : Trace) × ((p : String) (u : Tunnel) (ln : ℕ)
        → Dict.lookup p tuns ≡ some u
        → u.listener ≡ some ln
        → In (close ln) calls)
      × ((remove_tunnels name ts e w).1.trace
          ≡ run (remove_ip_command e.platform ip) none ∷ (calls ++ w.trace))
unfolding remove_tunnels remove_ip_from_local_interface
remove_tunnels_lem name port ip t tuns ts e w has found at' given =
    let ports = e.order w.trace (Dict.keys tuns) in
    let visited = λ (p : String) (u : Tunnel) (h : Dict.lookup p tuns ≡ some u).
      In-of_contains ports p (contains-order p u tuns ports (e.order-perm w.trace _) h) in
    let same = stop_all_ip e tuns ip at' given ports w port t found (visited port t found) in
    (
      close_calls tuns ports,
      λ p u ln h listens. close_calls-close tuns ports p u ln h listens (visited p u h),
      rw (has, remove_tunnels) (rw (same, stop_all-trace e tuns ports "" w) refl),
    )

abbrev pub removal_of : Env → String → Action
removal_of e ip = run (remove_ip_command e.platform ip) none

-- What `removeTunnels` comes to is what removing the address comes to.
pub remove_tunnels_outcome :
    (name port ip : String) (t : Tunnel) (tuns : Dict Tunnel) (ts : Tunnels) (e : Env) (w : World)
    → Dict.lookup name ts ≡ some tuns
    → Dict.lookup port tuns ≡ some t
    → IsAt ip tuns
    → ip ≢ ""
    → let before = (stop_all tuns (e.order w.trace (Dict.keys tuns)) "" e w).1 in
      ((remove_tunnels name ts e w).0 ≡ check (e.answer before.trace (removal_of e ip)).error)
      × ((remove_tunnels name ts e w).1.trace ≡ removal_of e ip ∷ before.trace)
unfolding remove_tunnels remove_ip_from_local_interface
remove_tunnels_outcome name port ip t tuns ts e w has found at' given =
    let ports = e.order w.trace (Dict.keys tuns) in
    let i =
      In-of_contains ports port (contains-order port t tuns ports (e.order-perm w.trace _) found) in
    let same = stop_all_ip e tuns ip at' given ports w port t found i in
    (rw (has, remove_tunnels) (rw same refl), rw (has, remove_tunnels) (rw same refl))

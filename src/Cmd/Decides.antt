-- ===== src/Cmd/Decides.antt =====
-- From the flags and the platform to the clouds of a running controller.
use cloud_provider_kind.Base.{String, Bool, true, false, some, ◌≡◌, refl, ap, ◌∙◌, inl, inr}
use cloud_provider_kind.Base.Dict
use cloud_provider_kind.Cmd.{Flags, check_user, configure, prepare}
use cloud_provider_kind.Cmd.Connectivity.{IsWanted, configure_lem}
use cloud_provider_kind.Config.{Config, Connectivity, unknown, direct, portmap, tunnel, is_tunnel}
use cloud_provider_kind.Controller.Connect.{Ccm}
use cloud_provider_kind.Controller.System.{System, Reach}
use cloud_provider_kind.Controller.System.Decided.{Reach-AllInMode}
use cloud_provider_kind.Controller.System.Mode.{has_tunnel_manager}
use cloud_provider_kind.World.{ok, err, Trace, read_file, Env, World, Result-cases}

-- `Main` leaves the configuration that it has made of the flags.
prepare-configure :
    (f : Flags) (e : Env) (w : World)
    → (prepare f e w).0 ≡ ok tt
    → (v : World) × ((c : Config) × ((configure f e v).0 ≡ ok c) × ((prepare f e w).1.config ≡ c))
unfolding prepare
prepare-configure f e w done = elim (Result-cases (check_user e w).0) [
  | inr (x, failed) ↦ let wrong : err x ≡ ok tt = rw failed at done in absurd (cc)
  | inl (_, allowed) ↦ elim (Result-cases (configure f e (check_user e w).1).0) [
    | inr (x, failed) ↦ let wrong : err x ≡ ok tt = rw (allowed, failed) at done in absurd (cc)
    | inl (c, made) ↦ ((check_user e w).1, (c, made, rw (allowed, made) refl))
  ]
]

-- Each cloud has a tunnel manager if load balancers are reached by tunnels, and else none.
abbrev pub uses_tunnels : Connectivity → Bool
uses_tunnels tunnel = true
uses_tunnels portmap = false
uses_tunnels direct = false
uses_tunnels unknown = false

is_tunnel_lem : (k : Connectivity) → is_tunnel k ≡ uses_tunnels k
is_tunnel_lem tunnel = refl
is_tunnel_lem portmap = refl
is_tunnel_lem direct = refl
is_tunnel_lem unknown = refl

-- If `Main` comes as far as the controller, then in every state that the controller can reach, the
-- load balancer connectivity is still the one that the flags and the platform ask for: published
-- ports with the flag for them, else tunnels on Darwin, on Windows and where the version of the
-- kernel names WSL2, else undecided; and each cloud has a tunnel manager exactly if it is tunnels.
pub prepare-AllInMode :
    (f : Flags) (e : Env) (w : World) (s : System)
    → (prepare f e w).0 ≡ ok tt
    → Reach e (prepare f e w).1 s
    → (h : Trace) × ((mode : Connectivity) × IsWanted f e
          (e.answer h (read_file "/proc/version"))
          mode
        × (s.world.config.load_balancer_connectivity ≡ mode)
        × ((c : String) (m : Ccm)
            → Dict.lookup c s.clusters ≡ some m
            → has_tunnel_manager m.cloud.lb_controller ≡ uses_tunnels mode))
prepare-AllInMode f e w s done r =
    let (v, (c, made, is)) = prepare-configure f e w done in
    let (h, (_, _, decided)) = configure_lem f c e v made in
    let same : (prepare f e w).1.config.load_balancer_connectivity ≡ c.load_balancer_connectivity =
      ap (λ d. d.load_balancer_connectivity) is in
    let (stays, all) = Reach-AllInMode e (prepare f e w).1 s r in
    (
      h,
      (
        c.load_balancer_connectivity,
        decided,
        stays ∙ same,
        λ n m has. all n m has ∙ ap is_tunnel same ∙ is_tunnel_lem c.load_balancer_connectivity,
      ),
    )

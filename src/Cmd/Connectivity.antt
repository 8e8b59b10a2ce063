-- ===== src/Cmd/Connectivity.antt =====
-- The configuration that the program starts with.
use cloud_provider_kind.Base.{
  String, if◌then◌else◌, Bool, Bool-cases, ◌≡◌, refl, sym, ap, ◌∙◌, arith, true, false, ◌||◌, ◌⊎◌,
  inl, inr, string_eq,
}
use cloud_provider_kind.Base.Text.{has_substring}
use cloud_provider_kind.Cmd.{
  Flags, wsl2_text, is_wsl2, log_directory, make_missing, with_logs, init_logs, is_desktop,
  needs_tunnels, set_connectivities, configure,
}
use cloud_provider_kind.Config.{Config, zero_config, Connectivity, unknown, portmap, tunnel}
use cloud_provider_kind.World.{
  Result, ok, err, Platform, darwin, windows, other, Trace, read_file, Env, World, Result-cases,
}

-- Of the configuration, the logs change only what is about logs.
abbrev IsLogged : Bool → Config → Config → Type 0
IsLogged dump c c' =
    (c'.enable_log_dump ≡ dump) × (c'.load_balancer_connectivity ≡ c.load_balancer_connectivity)

with_logs-ok :
    (f : Flags) (c c' : Config) (e : Env) (w : World)
    → (with_logs f c e w).0 ≡ ok c'
    → IsLogged true c c'
unfolding with_logs
with_logs-ok f c c' e w h = elim (Result-cases (log_directory f e w).0) [
  | inr (x, failed) ↦ let wrong : err x ≡ ok c' = rw failed at h in absurd (cc)
  | inl (dir, found) ↦ elim (Result-cases (make_missing dir e (log_directory f e w).1).0) [
    | inr (x, failed) ↦ let wrong : err x ≡ ok c' = rw (found, failed) at h in absurd (cc)
    | inl (done, made) ↦
        let same : ok (record c { enable_log_dump = true; log_dir = dir }) ≡ ok c' =
          rw (found, made) at h in
        let same' : record c { enable_log_dump = true; log_dir = dir } ≡ c' = cc in
        (
          ap (λ x. x.enable_log_dump) (sym same'),
          ap (λ x. x.load_balancer_connectivity) (sym same'),
        )
  ]
]

init_logs-ok :
    (f : Flags) (c c' : Config) (e : Env) (w : World)
    → c.enable_log_dump ≡ false
    → (init_logs f c e w).0 ≡ ok c'
    → IsLogged f.enable_log_dump c c'
unfolding init_logs
init_logs-ok f c c' e w off h = elim (Bool-cases f.enable_log_dump) [
  | inr no_dump ↦
      let same : ok c ≡ ok c' = rw no_dump at h in
      let same' : c ≡ c' = cc in
      (
        ap (λ x. x.enable_log_dump) (sym same') ∙ off ∙ sym no_dump,
        ap (λ x. x.load_balancer_connectivity) (sym same'),
      )
  | inl dump ↦
      let h' : (with_logs f c e w).0 ≡ ok c' = rw dump at h in
      let (d, l) = with_logs-ok f c c' e w h' in (d ∙ sym dump, l)
]

-- What `Main` computes, by the text of the kernel's version.
abbrev wanted : Flags → Env → Result String → Connectivity
wanted f e version =
    if f.enable_lb_port_mapping
    then portmap
    else (if is_desktop e.platform || wsl2_text version then tunnel else unknown)

-- The text of the kernel's version could be read and names WSL2.
abbrev pub NamesWsl2 : Result String → Type 0
NamesWsl2 version = (text : String) × (version ≡ ok text) × (has_substring text "WSL2" ≡ true)

-- What the flags and the platform ask for; the text is that of the kernel's version.
abbrev pub IsWanted : Flags → Env → Result String → Connectivity → Type 0
IsWanted f e version k =
    ((f.enable_lb_port_mapping ≡ true) × (k ≡ portmap))
    ⊎ ((f.enable_lb_port_mapping ≡ false)
        × ((e.platform ≡ darwin) ⊎ ((e.platform ≡ windows) ⊎ NamesWsl2 version))
        × (k ≡ tunnel))
    ⊎ ((f.enable_lb_port_mapping ≡ false)
        × (e.platform ≡ other)
        × (NamesWsl2 version → ⊥)
        × (k ≡ unknown))

NamesWsl2-of_text : (version : Result String) → wsl2_text version ≡ true → NamesWsl2 version
NamesWsl2-of_text (ok text) h = (text, refl, h)
NamesWsl2-of_text (err x) h = absurd (cc)

ne_NamesWsl2 : (version : Result String) → wsl2_text version ≡ false → NamesWsl2 version → ⊥
ne_NamesWsl2 (ok text) h (t, is, named) =
    let same : text ≡ t = cc in
    let wrong : has_substring text "WSL2" ≡ true = rw same named in absurd (ground arith)
ne_NamesWsl2 (err x) h (t, is, named) = absurd (cc)

desktop_names : (p : Platform) → is_desktop p ≡ true → (p ≡ darwin) ⊎ (p ≡ windows)
desktop_names darwin h = inl refl
desktop_names windows h = inr refl
desktop_names other h = absurd (cc)

desktop_other : (p : Platform) → is_desktop p ≡ false → p ≡ other
desktop_other darwin h = absurd (cc)
desktop_other windows h = absurd (cc)
desktop_other other h = refl

pub wanted-IsWanted :
    (f : Flags) (e : Env) (version : Result String) → IsWanted f e version (wanted f e version)
wanted-IsWanted f e version = elim (Bool-cases f.enable_lb_port_mapping) [
  | inl mapped ↦ inl (mapped, rw mapped refl)
  | inr plain ↦ elim (Bool-cases (is_desktop e.platform)) [
    | inl desk ↦ inr (
        inl (
          plain,
          (elim (desktop_names e.platform desk) [ inl is ↦ inl is | inr is ↦ inr (inl is) ]),
          rw (plain, desk) refl,
        ))
    | inr off ↦ elim (Bool-cases (wsl2_text version)) [
      | inl named ↦
          inr
            (inl (plain, inr (inr (NamesWsl2-of_text version named)), rw (plain, off, named) refl))
      | inr unnamed ↦ inr (
          inr (
            plain,
            desktop_other e.platform off,
            ne_NamesWsl2 version unnamed,
            rw (plain, off, unnamed) refl,
          ))
    ]
  ]
]

set_connectivities_lem :
    (f : Flags) (desktop : Bool) (c : Config)
    → let c' = set_connectivities f desktop c in
      (c'.control_plane_connectivity ≡ portmap)
      × (c'.enable_log_dump ≡ c.enable_log_dump)
      × (c'.load_balancer_connectivity ≡ (
          if f.enable_lb_port_mapping
          then portmap
          else (if desktop then tunnel else c.load_balancer_connectivity)))
unfolding set_connectivities
set_connectivities_lem f true c = elim (Bool-cases f.enable_lb_port_mapping) [
  | inl mapped ↦ rw mapped (refl, refl, refl)
  | inr plain ↦ rw plain (refl, refl, refl)
]
set_connectivities_lem f false c = elim (Bool-cases f.enable_lb_port_mapping) [
  | inl mapped ↦ rw mapped (refl, refl, refl)
  | inr plain ↦ rw plain (refl, refl, refl)
]

needs_tunnels_lem :
    (e : Env) (w : World)
    → (needs_tunnels e w).0
      ≡ (is_desktop e.platform || wsl2_text (e.answer w.trace (read_file "/proc/version")))
unfolding needs_tunnels is_wsl2
needs_tunnels_lem e w = elim (Bool-cases (is_desktop e.platform)) [
  | inl desk ↦ rw desk refl
  | inr plain ↦ rw plain refl
]

-- If the program comes to a configuration, the control plane is reached over published ports
-- first, logs are dumped exactly if the flag says so, and load balancers are reached over
-- published ports if the flag says so, else by tunnels exactly on the desktop platforms and where
-- the version of the kernel names WSL2.
pub configure_lem :
    (f : Flags) (c : Config) (e : Env) (w : World)
    → (configure f e w).0 ≡ ok c
    → (h : Trace) × ((c.control_plane_connectivity ≡ portmap)
        × (c.enable_log_dump ≡ f.enable_log_dump)
        × IsWanted f e (e.answer h (read_file "/proc/version")) c.load_balancer_connectivity)
unfolding configure
configure_lem f c e w h = elim (Result-cases (init_logs f zero_config e w).0) [
  | inr (x, failed) ↦ let wrong : err x ≡ ok c = rw failed at h in absurd (cc)
  | inl (c1, logged) ↦
      let w1 = (init_logs f zero_config e w).1 in
      let (d, l) = init_logs-ok f zero_config c1 e w refl logged in
      let desktop = (needs_tunnels e w1).0 in
      let (p, q, r) = set_connectivities_lem f desktop c1 in
      let same : ok (set_connectivities f desktop c1) ≡ ok c = rw logged at h in
      let same' : set_connectivities f desktop c1 ≡ c = cc in
      let version = e.answer w1.trace (read_file "/proc/version") in
      let mode : c.load_balancer_connectivity ≡ wanted f e version =
        rw (← same') (r ∙ rw (l, needs_tunnels_lem e w1) refl) in
      (w1.trace, (rw (← same') p, rw (← same') (q ∙ d), rw mode (wanted-IsWanted f e version)))
]

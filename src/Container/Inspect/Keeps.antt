-- ===== src/Container/Inspect/Keeps.antt =====
-- What reading from a container leaves true.
use cloud_provider_kind.Base.{String, Option, none, some, List, [], ◌∷◌, ◌≡◌, refl}
use cloud_provider_kind.Base.Dict
use cloud_provider_kind.Container.Inspect.{
  lines_of, ips_args, ips, parse_ips, ports_args, port_mappings, port_maps, add_ports,
}
use cloud_provider_kind.World.{
  Err, Env, World, output_lines, lift, range, ok, Keeps, >>=-Keeps, pure-Keeps,
}

port_mappings_world :
    (lines : List String) (error : Option Err) (e : Env) (w : World)
    → (port_mappings (lines, error) e w).1 ≡ w
unfolding port_mappings
port_mappings_world lines (some x) e w = refl
port_mappings_world [] none e w = refl
port_mappings_world (line ∷ []) none e w = refl
port_mappings_world (line ∷ next ∷ lines) none e w = refl

-- A call of `kindexec.OutputLines` leaves `P` true.
module _ (e : Env) (P : World → Type 0)
    (law : (argv : List String) (w : World)
      → P w
      → P (record w { trace = output_lines argv ∷ w.trace })) where
  lines_of-Keeps : (args : List String) → Keeps e P (lines_of args)
  lines_of-Keeps args = record { keep = λ w h. law _ w h }

  pub ips-Keeps : (name : String) → Keeps e P (ips name)
  unfolding ips
  ips-Keeps name =
      >>=-Keeps e P (lines_of (ips_args name)) (λ out e w. (parse_ips out, w))
        (lines_of-Keeps (ips_args name)) (λ out. pure-Keeps e P (λ e w. parse_ips out))

  pub port_maps-Keeps : (name : String) → Keeps e P (port_maps name)
  unfolding port_maps
  port_maps-Keeps name =
      >>=-Keeps e P (lines_of (ports_args name)) _ (lines_of-Keeps (ports_args name)) (λ out.
        >>=-Keeps e P (port_mappings out) _
          (record { keep = λ w h. rw (port_mappings_world out.0 out.1 e w) h })
          (λ m.
            >>=-Keeps e P (lift (range (Dict.keys m))) (λ keys e w. (ok (add_ports keys m []), w))
              (record { keep = λ w h. h })
              (λ keys. pure-Keeps e P (λ e w. ok (add_ports keys m [])))))

-- ===== src/Container/Inspect.antt =====
-- What pkg/container/container.go reads with `inspect` and `ps`.
pub mod Published
pub mod Keeps
use cloud_provider_kind.Base.{
  String, ◌<>◌, ◌==◌, string_eq, if◌then◌else◌, Bool, true, false, Option, none, some, List, [],
  ◌∷◌, ◌||◌, not, length,
}
use cloud_provider_kind.Base.Decimal.{itoa}
use cloud_provider_kind.Base.Dict
use cloud_provider_kind.Base.Dict.{Dict}
use cloud_provider_kind.Base.Text.{split, to_lower}
use cloud_provider_kind.World.{
  Err, errorf, wrapf, Result, ok, err, PortMapping, output_lines, Proc, perform, range, runtime,
  pure, lift, ◌>>=◌,
}

-- `kindexec.OutputLines(kindexec.Command(containerRuntime, args…))`
abbrev pub lines_of : List String → Proc (Result (List String × Option Err))
lines_of args = do rt ← lift runtime; lift (perform (output_lines (rt ∷ args)))

abbrev details_error : Err → Err
details_error x = wrapf "failed to get container details: " x

-- The error behind `%w` is nil here, and is printed as `%!w(<nil>)`.
lines_error : List String → Err
lines_error lines =
    errorf ("file should only be one line, got " <> (itoa (length lines) <> " lines: %!w(<nil>)"))

pair_error : List String → Err
pair_error parts =
    errorf ("container addresses should have 2 values, got " <> (itoa (length parts) <> " values"))

abbrev pair_of : List String → Result (String × String)
pair_of (ipv4 ∷ ipv6 ∷ []) = ok (ipv4, ipv6)
pair_of parts = err (pair_error parts)

-- The two addresses on the one line that `inspect` prints.
unfoldable pub parse_ips : List String × Option Err → Result (String × String)
unfolding lines_error pair_error
parse_ips (lines, some x) = err (details_error x)
parse_ips (line ∷ [], none) = pair_of (split line ",")
parse_ips (lines, none) = err (lines_error lines)

abbrev pub ips_args : String → List String
ips_args name =
    "inspect" ∷ "-f"
    ∷ "{{range .NetworkSettings.Networks}}{{.IPAddress}},{{.GlobalIPv6Address}}{{end}}" ∷ name ∷ []

-- `IPs(name)`
unfoldable pub ips : String → Proc (Result (String × String))
unfolding parse_ips
ips name = do out ← lines_of (ips_args name); λ e w. (parse_ips out, w)

-- The first host port that is not empty.
abbrev pub first_host_port : List PortMapping → Option String
first_host_port [] = none
first_host_port (pm ∷ pms) = if pm.host_port == "" then first_host_port pms else some pm.host_port

abbrev first_part : List String → String
first_part [] = ""
first_part (p ∷ ps) = p

abbrev protocol_part : List String → String
protocol_part (p ∷ q ∷ []) = to_lower q
protocol_part parts = "tcp"

-- The port and the protocol of a key such as `80/tcp`.
unfoldable pub port_of : String → String
port_of key = first_part (split key "/")

unfoldable pub protocol_of : String → String
protocol_of key = protocol_part (split key "/")

abbrev pub is_supported : String → Bool
is_supported protocol = protocol == "tcp" || protocol == "udp"

-- One round of the loop over the mappings of the key `key`.
unfoldable pub add_port : String → List PortMapping → Dict String → Dict String
add_port key pms result =
    if not (is_supported (protocol_of key)) then result else elim (first_host_port pms) [
      | none ↦ result
      | some host_port ↦ Dict.insert (port_of key) host_port result
    ]

abbrev pub mappings_of : String → Dict (List PortMapping) → List PortMapping
mappings_of key m = elim (Dict.lookup key m) [ none ↦ [] | some pms ↦ pms ]

-- The loop, over the keys in the order in which `range` visits them.
unfoldable pub add_ports : List String → Dict (List PortMapping) → Dict String → Dict String
add_ports [] m result = result
add_ports (key ∷ keys) m result = add_ports keys m (add_port key (mappings_of key m) result)

-- What `json.Unmarshal` makes of the one line.
unfoldable pub port_mappings : List String × Option Err → Proc (Result (Dict (List PortMapping)))
unfolding lines_error
port_mappings (lines, some x) e w = (err (details_error x), w)
port_mappings (line ∷ [], none) e w = (e.unmarshal_ports line, w)
port_mappings (lines, none) e w = (err (lines_error lines), w)

abbrev pub ports_args : String → List String
ports_args name = "inspect" ∷ "-f" ∷ "{{ json .NetworkSettings.Ports }}" ∷ name ∷ []

-- `PortMaps(name)`
unfoldable pub port_maps : String → Proc (Result (Dict String))
unfolding port_mappings add_ports
port_maps name = do
  out ← lines_of (ports_args name)
  m ← port_mappings out
  keys ← lift (range (Dict.keys m))
  pure (add_ports keys m [])

-- `ListByLabel(label)`. Its lines and its error stand side by side.
unfoldable pub list_by_label : String → Proc (Result (List String × Option Err))
list_by_label label =
    lines_of ("ps" ∷ "-a" ∷ "--filter" ∷ ("label=" <> label) ∷ "--format" ∷ "{{.ID }}" ∷ [])

abbrev pub one_line : List String × Option Err → Result String
one_line (lines, some x) = err x
one_line (line ∷ [], none) = ok line
one_line (lines, none) = err (errorf ("expected 1 line, got " <> itoa (length lines)))

abbrev label_format : String → String
label_format label = "{{ index .Config.Labels \"" <> (label <> "\"}}")

-- `GetLabelValue(name, label)`
unfoldable pub get_label_value : String → String → Proc (Result String)
get_label_value name label = do
  out ← lines_of ("inspect" ∷ "--format" ∷ label_format label ∷ name ∷ [])
  λ e w. (one_line out, w)

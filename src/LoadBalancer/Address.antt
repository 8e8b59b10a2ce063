-- ===== src/LoadBalancer/Address.antt =====
-- pkg/loadbalancer/address_darwin.go, address_windows.go and address_other.go: the commands for the
-- addresses of the local interface. The build takes one of the three files.
use cloud_provider_kind.Base.{String, List, [], ◌∷◌}

abbrev pub add_ip_on_darwin : String → List String
add_ip_on_darwin ip = "ifconfig" ∷ "lo0" ∷ "alias" ∷ ip ∷ "netmask" ∷ "255.255.255.255" ∷ []

abbrev pub remove_ip_on_darwin : String → List String
remove_ip_on_darwin ip = "ifconfig" ∷ "lo0" ∷ "-alias" ∷ ip ∷ []

abbrev pub add_ip_on_windows : String → List String
add_ip_on_windows ip =
    "netsh" ∷ "interface" ∷ "ip" ∷ "add" ∷ "address" ∷ "loopback" ∷ ip ∷ "255.255.255.255" ∷ []

abbrev pub remove_ip_on_windows : String → List String
remove_ip_on_windows ip =
    "netsh" ∷ "interface" ∷ "ip" ∷ "delete" ∷ "address" ∷ "loopback" ∷ ip ∷ "255.255.255.255" ∷ []

abbrev pub add_ip_on_other : String → List String
add_ip_on_other ip = "ip" ∷ "addr" ∷ "add" ∷ ip ∷ "dev" ∷ "lo" ∷ []

abbrev pub remove_ip_on_other : String → List String
remove_ip_on_other ip = "ip" ∷ "addr" ∷ "del" ∷ ip ∷ "dev" ∷ "lo" ∷ []

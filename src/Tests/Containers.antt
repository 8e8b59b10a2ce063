-- ===== src/Tests/Containers.antt =====
-- What a container publishes, and the nodes of a cluster.
use cloud_provider_kind.Base.{
  String, ◌≡◌, ◌≢◌, ◌==◌, refl, sym, ap, ◌∙◌, ne_of_==, inl, inr, List, false, some, [], ◌∷◌, In,
  char_eq, string_eq,
}
use cloud_provider_kind.Base.Dict
use cloud_provider_kind.Base.Text.{split, to_lower}
use cloud_provider_kind.Container.Inspect.{mappings_of, add_ports, add_port, protocol_of, port_of}
use cloud_provider_kind.Container.Inspect.Published.{
  IsKey, IsFirst, port_maps_sound, port_maps_order,
}
use cloud_provider_kind.Provider.{new_cloud, instance_exists, instance_shutdown}
use cloud_provider_kind.Provider.Instances.{instance_never_gone}
use cloud_provider_kind.Tests.Fixtures.{env, world, mappings}
use cloud_provider_kind.World.{errorf, ok, err, KindNode, list_nodes}
use cloud_provider_kind.Config.{zero_config}

tcp_first : Dict.lookup "80" (add_ports ("80/tcp" ∷ "80/udp" ∷ []) mappings []) ≡ some "32769"
unfolding add_ports char_eq string_eq Dict.lookup add_port protocol_of split to_lower Dict.insert
    port_of
tcp_first = refl

port_maps_sound_example :
    (key : String) × In key ("80/tcp" ∷ "80/udp" ∷ [])
    × IsKey "80" (split key "/")
    × IsFirst "32769" (mappings_of key mappings)
port_maps_sound_example = port_maps_sound mappings ("80/tcp" ∷ "80/udp" ∷ []) "80" "32769" tcp_first

tcp_parts : split "80/tcp" "/" ≡ "80" ∷ "tcp" ∷ []
unfolding split char_eq
tcp_parts = refl

udp_parts : split "80/udp" "/" ≡ "80" ∷ "udp" ∷ []
unfolding split char_eq
udp_parts = refl

is_given : (s : String) → (s == "") ≡ false → s ≢ ""
is_given s h = ne_of_== s "" h

tcp-IsFirst : IsFirst "32768" (mappings_of "80/tcp" mappings)
unfolding Dict.lookup string_eq
tcp-IsFirst = inl (is_given "32768" refl, refl)

udp-IsFirst : IsFirst "32769" (mappings_of "80/udp" mappings)
unfolding Dict.lookup string_eq
udp-IsFirst = inl (is_given "32769" refl, refl)

admin_port :
    (key : String) (parts : List String) → In key ("10000/tcp" ∷ []) → split key "/" ≢ "80" ∷ parts
unfolding split char_eq string_eq
admin_port key parts (inl is) same =
    let number : ◌≡◌ {A = String} "10000" "80" = ap head (rw is at same) in
    absurd (ne_of_== {A = String} "10000" "80" refl number)
  where
    head : List String → String
    head [] = ""
    head (x ∷ xs) = x
admin_port key parts (inr i) same = elim i [ ]

port_maps_order_example :
    (Dict.lookup "80"
        (add_ports ("443/tcp" ∷ "80/tcp" ∷ "53/udp" ∷ "80/udp" ∷ "10000/tcp" ∷ []) mappings [])
      ≡ some "32769")
    × (Dict.lookup "80"
          (add_ports ("443/tcp" ∷ "80/udp" ∷ "53/udp" ∷ "80/tcp" ∷ "10000/tcp" ∷ []) mappings [])
        ≡ some "32768")
port_maps_order_example =
    port_maps_order mappings ("443/tcp" ∷ []) ("53/udp" ∷ []) ("10000/tcp" ∷ []) "80" "32768"
      "32769" "80/tcp" "80/udp" tcp_parts udp_parts tcp-IsFirst udp-IsFirst admin_port

abbrev node_list : List KindNode
node_list = record { name = "kind-worker"; ip = ok ("192.168.8.2", "") } ∷ []

is_answered : env.answer world.trace (list_nodes "kind") ≡ ok node_list
is_answered = refl

is_absent : (n : KindNode) → In n node_list → n.name ≢ "kind-worker2"
unfolding string_eq
is_absent n (inl is) same = absurd (
    ne_of_== {A = String} "kind-worker" "kind-worker2" refl
      (ap (λ (k : KindNode). k.name) (sym is) ∙ same))
is_absent n (inr i) same = elim i [ ]

instance_never_gone_example :
    ((instance_exists (new_cloud "kind" zero_config) "kind-worker2" env world).0
      ≡ err (errorf "node with name kind-worker2 does not exist on cluster kind"))
    × ((instance_shutdown (new_cloud "kind" zero_config) "kind-worker2" env world).0
        ≡ err (errorf "node with name kind-worker2 does not exist on cluster kind"))
unfolding new_cloud
instance_never_gone_example =
    instance_never_gone (new_cloud "kind" zero_config) "kind-worker2" node_list env world
      is_answered is_absent

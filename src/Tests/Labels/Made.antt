-- ===== src/Tests/Labels/Made.antt =====
-- A load balancer that is made and cancelled.
use cloud_provider_kind.Base.{string_eq, char_eq, nat_eq, ◌≡◌, refl, none, ◌++◌, In}
use cloud_provider_kind.Base.Text.{Lacks, Lacks-of_lacks}
use cloud_provider_kind.Container.{create}
use cloud_provider_kind.Controller.Cancel.{cancel_fn}
use cloud_provider_kind.Controller.Cancel.Removed.{created_is_removed}
use cloud_provider_kind.Controller.Connect.{Ccm}
use cloud_provider_kind.LoadBalancer.Names.{load_balancer_name, load_balancer_simple_name}
use cloud_provider_kind.LoadBalancer.Proxy.Update.{proxy_image}
use cloud_provider_kind.LoadBalancer.Server.Create.{create_load_balancer}
use cloud_provider_kind.LoadBalancer.Server.Running.{rm_call}
use cloud_provider_kind.Provider.{Cloud}
use cloud_provider_kind.Tests.Fixtures.{world, service, word, ran}
use cloud_provider_kind.World.{Result, ok, Trace, World}
use cloud_provider_kind.Tests.Labels.{labels_answer, docker}
use cloud_provider_kind.Tests.Labels.Kept.{docker-Labels}

abbrev cloud : Cloud
cloud = record { cluster_name = "kind"; lb_controller = record { tunnel_manager = none } }

abbrev pub manager : Ccm
manager = record { cluster_name = "kind"; cloud = cloud }

abbrev pub made : Result (Unit {0}) × World
made = create_load_balancer none "kind" service proxy_image docker world

is_made : made.0 ≡ ok tt
unfolding create_load_balancer create ran word labels_answer string_eq
is_made = refl

pub is_one_line : Lacks "\n" (load_balancer_simple_name "kind" service)
unfolding load_balancer_simple_name
is_one_line = Lacks-of_lacks "\n" "kind/default/web" refl

created_is_removed_example :
    (calls : Trace) × ((cancel_fn manager docker made.1).1.trace ≡ calls ++ made.1.trace)
    × In (rm_call "docker" (load_balancer_name "kind" service)) calls
created_is_removed_example =
    created_is_removed docker docker-Labels none "kind" service cloud world
      (Lacks-of_lacks "/" "kind" refl) (Lacks-of_lacks "/" "default" refl)
      (Lacks-of_lacks "/" "web" refl) is_one_line is_made

-- ===== src/Controller/Cancel/Removed.antt =====
-- That `cancelFn` removes the containers that `createLoadBalancer` makes.
use mathlib.Core.Path.{subst}
use cloud_provider_kind.Base.{
  String, string_eq, ◌≡◌, refl, sym, ap, ◌∙◌, Option, none, List, [], ◌∷◌, ◌++◌, In, inl, inr,
  Option-cases,
}
use cloud_provider_kind.Base.Text.{Lacks}
use cloud_provider_kind.Api.{Service, named_service}
use cloud_provider_kind.Config.{node_ccm_label_key, load_balancer_name_label_key}
use cloud_provider_kind.Container.{list_by_label, get_label_value, one_line}
use cloud_provider_kind.Controller.Cancel.{
  delete_service, delete_labelled, delete_container, delete_containers, delete_with, cancel_fn,
}
use cloud_provider_kind.Controller.Cancel.Calls.{
  list_call, label_call, IsCancelling, cancels, lists,
}
use cloud_provider_kind.Controller.Cancel.Keeps.{
  deleted_last, delete_container-Keeps, delete_containers-Keeps,
}
use cloud_provider_kind.Controller.Cancel.Labels.{load_balancer_name-named_service}
use cloud_provider_kind.Controller.Connect.{Ccm}
use cloud_provider_kind.LoadBalancer.Names.{
  load_balancer_name, load_balancer_simple_name, service_from_load_balancer_simple_name,
}
use cloud_provider_kind.LoadBalancer.Names.RoundTrip.{service_from-simple_name}
use cloud_provider_kind.LoadBalancer.Proxy.Update.{proxy_image}
use cloud_provider_kind.LoadBalancer.Server.Create.{create_load_balancer}
use cloud_provider_kind.LoadBalancer.Server.Running.{rm_call}
use cloud_provider_kind.LoadBalancer.Tunnel.{Tunnels}
use cloud_provider_kind.Provider.{Cloud}
use cloud_provider_kind.World.{ok, Action, Trace, cancel, Env, World, Result-cases}
use cloud_provider_kind.Controller.Cancel.Created.{
  Labels, IsLabelled, create_load_balancer-IsLabelled,
}
use cloud_provider_kind.Controller.Cancel.Tracked.{Removed, Tracked, Removed-later, Tracked-later}

module _ (e : Env) (r : Labels e) (cluster : String) (service : Service) (id : String)
    (h0 : Trace) where
  abbrev Gone : World → Type 0
  Gone = Removed e r cluster service id h0

  abbrev Known : World → Type 0
  Known = Tracked e r cluster service id h0

  Gone-later :
      (a : Action) (w : World) → IsCancelling e a → Gone w → Gone (record w { trace = a ∷ w.trace })
  Gone-later = Removed-later e r cluster service id h0

  Known-later :
      (a : Action) (w : World)
      → IsCancelling e a
      → Known w
      → Known (record w { trace = a ∷ w.trace })
  Known-later = Tracked-later e r cluster service id h0

  -- The label names the service, whose load balancer is deleted last.
  own_labelled :
      (cloud : Cloud) (w : World)
      → Lacks "/" cluster
      → Lacks "/" service.namespace
      → Lacks "/" service.name
      → (calls : Trace) → w.trace ≡ calls ++ h0
      → Gone (delete_labelled cloud (load_balancer_simple_name cluster service) e w).1
  unfolding delete_labelled delete_service
  own_labelled cloud w hc hn hs calls is =
      let fake = named_service service.namespace service.name in
      let since : World → Type 0 = λ v. (more : Trace) × (v.trace ≡ more ++ h0) in
      let (v, (more, is'), last) =
        deleted_last e since (λ a u _ s. (a ∷ s.0, ap (λ h. a ∷ h) s.1)) cloud cluster fake w
          (calls, is) in
      let same = load_balancer_name-named_service cluster service in
      rw (service_from-simple_name cluster service hc hn hs) (
        rm_call e.runtime (load_balancer_name cluster fake) ∷ more,
        last ∙ ap (λ h. rm_call e.runtime (load_balancer_name cluster fake) ∷ h) is',
        inl (ap (λ n. rm_call e.runtime n) (sym same)),
      )

  label_found :
      (w : World)
      → e.answer w.trace (label_call e.runtime id load_balancer_name_label_key)
        ≡ (load_balancer_simple_name cluster service ∷ [], none)
      → (get_label_value id load_balancer_name_label_key e w).0
        ≡ ok (load_balancer_simple_name cluster service)
  unfolding get_label_value
  label_found w answered = ap one_line answered

  -- The loop's round for the container itself removes it.
  own_container :
      (cloud : Cloud) (w : World)
      → Lacks "/" cluster
      → Lacks "/" service.namespace
      → Lacks "/" service.name
      → Lacks "\n" (load_balancer_simple_name cluster service)
      → Known w
      → Gone (delete_container cloud id e w).1
  unfolding delete_container get_label_value
  own_container cloud w hc hn hs one_word (inl gone) =
      (delete_container-Keeps e Gone Gone-later cloud id).keep w gone
  own_container cloud w hc hn hs one_word (inr (calls, is, l)) =
      rw
        (label_found w (
          r.label_lem w.trace (load_balancer_name cluster service) id cluster
            (load_balancer_simple_name cluster service) one_word l))
        (own_labelled cloud _ hc hn hs
          (label_call e.runtime id load_balancer_name_label_key ∷ calls)
          (ap (λ h. label_call e.runtime id load_balancer_name_label_key ∷ h) is))

  delete_container-ok :
      (cloud : Cloud) (n : String) (w : World) → (delete_container cloud n e w).0 ≡ ok tt
  unfolding delete_container delete_labelled delete_service
  delete_container-ok cloud n w =
      elim (Result-cases (get_label_value n load_balancer_name_label_key e w).0) [
        | inr (x, failed) ↦ rw failed refl
        | inl (label, found) ↦
            elim (Option-cases (service_from_load_balancer_simple_name label).1) [
              | inl nothing ↦ rw (found, nothing) refl
              | inr (s, is) ↦ rw (found, is) refl
            ]
      ]

  own_containers :
      (cloud : Cloud) (names : List String) (w : World)
      → Lacks "/" cluster
      → Lacks "/" service.namespace
      → Lacks "/" service.name
      → Lacks "\n" (load_balancer_simple_name cluster service)
      → Known w
      → In id names
      → Gone (delete_containers cloud names e w).1
  unfolding delete_containers
  own_containers cloud [] w hc hn hs one_word t i = elim i [ ]
  own_containers cloud (n ∷ names) w hc hn hs one_word t (inl here) =
      let gone = own_container cloud w hc hn hs one_word t in
      rw (delete_container-ok cloud n w) (
        (delete_containers-Keeps e Gone Gone-later cloud names).keep _
          (subst (λ m. Gone (delete_container cloud m e w).1) here gone))
  own_containers cloud (n ∷ names) w hc hn hs one_word t (inr i) =
      rw (delete_container-ok cloud n w) (
        own_containers cloud names _ hc hn hs one_word
          ((delete_container-Keeps e Known Known-later cloud n).keep w t) i)

-- `cancelFn` removes a container that has the labels of a service of its cluster.
pub cancel_fn_removes :
    (e : Env) (r : Labels e) (cluster : String) (service : Service) (id : String) (cloud : Cloud)
    (w : World)
    → Lacks "/" cluster
    → Lacks "/" service.namespace
    → Lacks "/" service.name
    → Lacks "\n" (load_balancer_simple_name cluster service)
    → IsLabelled e r cluster service id w.trace
    → Removed e r cluster service id w.trace
        (cancel_fn (record { cluster_name = cluster; cloud = cloud }) e w).1
unfolding cancel_fn list_by_label delete_with
cancel_fn_removes e r cluster service id cloud w hc hn hs one_word l =
    let name = load_balancer_name cluster service in
    let w1 : World = record w { trace = cancel cluster ∷ w.trace } in
    let simple = load_balancer_simple_name cluster service in
    let cancelled : IsCancelling e (cancel cluster) = cancels cluster in
    let still_there : IsLabelled e r cluster service id w1.trace =
      elim (r.stays w.trace _ name id cluster simple cancelled l) [
        | inl still ↦ still
        | inr removes ↦ absurd (cc)
      ] in
    let (listed, i) = r.list_lem w1.trace name id cluster simple still_there in
    let w2 : World = record w {
      trace = list_call e.runtime node_ccm_label_key cluster ∷ cancel cluster ∷ w.trace;
    } in
    let t0 : Tracked e r cluster service id w.trace w = inr ([], refl, l) in
    let t1 = Tracked-later e r cluster service id w.trace _ w cancelled t0 in
    let t2 =
      Tracked-later e r cluster service id w.trace _ w1 (lists node_ccm_label_key cluster) t1 in
    rw listed (own_containers e r cluster service id w.trace cloud _ w2 hc hn hs one_word t2 i)

-- With a runtime that keeps the laws on labels of Controller/Cancel/Created: after
-- `createLoadBalancer` has made the container of a service, `cancelFn` of a manager of the same cluster removes that container by
-- force, if neither name holds a slash or a line break.
pub created_is_removed :
    (e : Env) (r : Labels e) (tunnels : Option Tunnels) (cluster : String) (service : Service)
    (cloud : Cloud) (w : World)
    → let made = create_load_balancer tunnels cluster service proxy_image e w in
      let manager : Ccm = record { cluster_name = cluster; cloud = cloud } in
      Lacks "/" cluster
      → Lacks "/" service.namespace
      → Lacks "/" service.name
      → Lacks "\n" (load_balancer_simple_name cluster service)
      → made.0 ≡ ok tt
      → (calls : Trace) × ((cancel_fn manager e made.1).1.trace ≡ calls ++ made.1.trace)
        × In (rm_call e.runtime (load_balancer_name cluster service)) calls
created_is_removed e r tunnels cluster service cloud w hc hn hs one_word done =
    let (id, l) = create_load_balancer-IsLabelled e r tunnels cluster service w done in
    cancel_fn_removes e r cluster service id cloud _ hc hn hs one_word l

-- ===== src/Controller/Emptied.antt =====
-- That dropping a cluster removes the containers of its load balancers.
use mathlib.Core.Path.{subst}
use cloud_provider_kind.Base.{
  String, ◌==◌, string_eq, eq_of_==, contains, Bool-cases, true, false, ◌≡◌, refl, sym, ap, ◌∙◌,
  some, List, [], ◌∷◌, ◌++◌, append_assoc, In, In-append_left, inl, inr,
}
use cloud_provider_kind.Base.Dict
use cloud_provider_kind.Base.Entries.{contains-order}
use cloud_provider_kind.Base.Text.{Lacks}
use cloud_provider_kind.Api.{Service}
use cloud_provider_kind.Controller.Cancel.{cancel_fn}
use cloud_provider_kind.Controller.Cancel.Created.{Labels, IsLabelled}
use cloud_provider_kind.Controller.Cancel.Keeps.{cancel_fn-Keeps}
use cloud_provider_kind.Controller.Cancel.Removed.{cancel_fn_removes}
use cloud_provider_kind.Controller.Cancel.Tracked.{
  Removed, Tracked, Removed-later, Tracked-later, Tracked-starting, Tracked-decided,
}
use cloud_provider_kind.Controller.Connect.{Ccm}
use cloud_provider_kind.Controller.Dropped.{
  drop_cluster-Keeps, drop_all-Keeps, remove_expired-Keeps,
}
use cloud_provider_kind.Controller.Kept.{lookup-drop_cluster, add_clusters-keep, listing, addition}
use cloud_provider_kind.Controller.Rounds.{
  Clusters, drop_cluster, drop_all, cleanup, remove_expired, round,
}
use cloud_provider_kind.Controller.Starting.{lists_clusters, add_clusters-Keeps}
use cloud_provider_kind.Controller.System.{System, Reach}
use cloud_provider_kind.Controller.System.Owned.{Reach-AllOwned}
use cloud_provider_kind.LoadBalancer.Names.{load_balancer_name, load_balancer_simple_name}
use cloud_provider_kind.LoadBalancer.Server.Running.{rm_call}
use cloud_provider_kind.Provider.{Cloud}
use cloud_provider_kind.World.{Trace, list_clusters, done_within, Env, World}

-- The names of which the label can be read back.
pub record IsPlain (cluster : String) (service : Service) : Type 0 where
  pub cluster_lacks : Lacks "/" cluster
  pub namespace_lacks : Lacks "/" service.namespace
  pub name_lacks : Lacks "/" service.name
  pub one_line : Lacks "\n" (load_balancer_simple_name cluster service)

module _ (e : Env) (r : Labels e) (cluster : String) (service : Service) (id : String)
    (plain : IsPlain cluster service) (cloud : Cloud) (h0 : Trace) where
  abbrev Gone : World → Type 0
  Gone = Removed e r cluster service id h0

  abbrev Known : World → Type 0
  Known = Tracked e r cluster service id h0

  abbrev manager : Ccm
  manager = record { cluster_name = cluster; cloud = cloud }

  -- The manager of the cluster itself.
  own_cancelled : (w : World) → Known w → Gone (cancel_fn manager e w).1
  own_cancelled w (inl gone) =
      (cancel_fn-Keeps e Gone (Removed-later e r cluster service id h0) manager).keep w gone
  own_cancelled w (inr (calls, is, l)) =
      let (more, is', i) =
        cancel_fn_removes e r cluster service id cloud w plain.cluster_lacks plain.namespace_lacks
          plain.name_lacks plain.one_line l in
      (
        more ++ calls,
        is' ∙ ap (λ h. more ++ h) is ∙ sym (append_assoc more calls h0),
        In-append_left _ more calls i,
      )

  own_dropped :
      (clusters : Clusters) (w : World)
      → Dict.lookup cluster clusters ≡ some manager
      → Known w
      → Gone (drop_cluster cluster clusters e w).1
  unfolding drop_cluster
  own_dropped clusters w has t = rw (has, drop_cluster) (own_cancelled w t)

  -- The manager of another cluster.
  other_dropped :
      (c : String) (clusters : Clusters) (w : World)
      → (cluster == c) ≡ false
      → Dict.lookup cluster clusters ≡ some manager
      → Dict.lookup cluster (drop_cluster c clusters e w).0 ≡ some manager
  other_dropped c clusters w other has = lookup-drop_cluster e cluster c clusters w ∙ rw other has

  drop_all_removes :
      (keys : List String) (clusters : Clusters) (w : World)
      → contains keys cluster ≡ true
      → Dict.lookup cluster clusters ≡ some manager
      → Known w
      → Gone (drop_all keys clusters e w).1
  unfolding drop_all
  drop_all_removes [] clusters w i has t = absurd (cc)
  drop_all_removes (c ∷ keys) clusters w i has t = elim (Bool-cases (cluster == c)) [
    | inl same ↦ (drop_all-Keeps e Gone (Removed-later e r cluster service id h0) keys _).keep _ (
        subst (λ n. Gone (drop_cluster n clusters e w).1) (eq_of_== cluster c same)
          (own_dropped clusters w has t))
    | inr other ↦
        drop_all_removes keys _ _ (rw other at i) (other_dropped c clusters w other has) (
          (drop_cluster-Keeps e Known (Tracked-later e r cluster service id h0) c clusters).keep w
            t)
  ]

  remove_expired_removes :
      (listed keys : List String) (clusters : Clusters) (w : World)
      → contains listed cluster ≡ false
      → contains keys cluster ≡ true
      → Dict.lookup cluster clusters ≡ some manager
      → Known w
      → Gone (remove_expired listed keys clusters e w).1
  unfolding remove_expired
  remove_expired_removes listed [] clusters w expired i has t = absurd (cc)
  remove_expired_removes listed (c ∷ keys) clusters w expired i has t =
      elim (Bool-cases (cluster == c)) [
        | inl same ↦
            let is = eq_of_== cluster c same in
            let gone : contains listed c ≡ false = rw (← is) expired in
            rw (gone, remove_expired)
              ((remove_expired-Keeps e Gone (Removed-later e r cluster service id h0) listed keys
                  _).keep
                _
                (subst (λ n. Gone (drop_cluster n clusters e w).1) is
                  (own_dropped clusters w has t)))
        | inr other ↦ elim (Bool-cases (contains listed c)) [
          | inl here ↦
              rw (here, remove_expired)
                (remove_expired_removes listed keys clusters w expired (rw other at i) has t)
          | inr gone ↦
              rw (gone, remove_expired)
                (remove_expired_removes listed keys _ _ expired (rw other at i)
                  (other_dropped c clusters w other has)
                  ((drop_cluster-Keeps e Known (Tracked-later e r cluster service id h0) c
                      clusters).keep
                    w t))
        ]
      ]

-- A manager that the controller can have is the one that was made for the cluster.
owned :
    (e : Env) (w : World) (s : System) (cluster : String) (m : Ccm) (clusters : Clusters)
    → Reach e w s
    → Dict.lookup cluster s.clusters ≡ some m
    → Dict.lookup cluster clusters ≡ some m
    → Dict.lookup cluster clusters ≡ some (record { cluster_name = cluster; cloud = m.cloud })
owned e w s cluster m clusters reach had has =
    has
    ∙ ap (λ n. some (record { cluster_name = n; cloud = m.cloud }))
        (Reach-AllOwned e w s reach cluster m had).own_name

-- With a runtime that keeps the laws on labels of Controller/Cancel/Created: in every state that
-- the controller can reach, `cleanup` removes by force each container that has the labels of a
-- service of a cluster with a manager, if neither name holds a slash or a line break.
pub cleanup_removes :
    (e : Env) (r : Labels e) (w : World) (s : System) (cluster : String) (m : Ccm)
    (service : Service) (id : String)
    → Reach e w s
    → Dict.lookup cluster s.clusters ≡ some m
    → IsPlain cluster service
    → IsLabelled e r cluster service id s.world.trace
    → (calls : Trace) × ((cleanup s.clusters e s.world).1.trace ≡ calls ++ s.world.trace)
      × In (rm_call e.runtime (load_balancer_name cluster service)) calls
unfolding cleanup
cleanup_removes e r w s cluster m service id reach has plain l =
    let keys = e.order s.world.trace (Dict.keys s.clusters) in
    drop_all_removes e r cluster service id plain m.cloud s.world.trace keys s.clusters s.world
      (contains-order cluster m s.clusters keys (e.order-perm s.world.trace _) has)
      (owned e w s cluster m s.clusters reach has has) (inr ([], refl, l))

-- With a runtime that keeps the laws on labels of Controller/Cancel/Created: a round of `Run`, from
-- a state that the controller can reach, removes by force each container that has the labels of a
-- service of a cluster which has a manager and which kind no longer lists, if neither name holds a
-- slash or a line break and the context is not done while the round adds clusters.
pub round_removes :
    (e : Env) (r : Labels e) (w : World) (s : System) (cluster : String) (m : Ccm)
    (service : Service) (id : String)
    → Reach e w s
    → Dict.lookup cluster s.clusters ≡ some m
    → contains (listing e s.world) cluster ≡ false
    → (addition s.clusters e s.world).0.0 ≡ false
    → IsPlain cluster service
    → IsLabelled e r cluster service id s.world.trace
    → (calls : Trace) × ((round s.clusters e s.world).1.trace ≡ calls ++ s.world.trace)
      × In (rm_call e.runtime (load_balancer_name cluster service)) calls
unfolding round
round_removes e r w s cluster m service id reach has expired going plain l =
    let h0 = s.world.trace in
    let w1 : World = record (s.world) { trace = list_clusters ∷ h0 } in
    let added = addition s.clusters e s.world in
    let keys = e.order added.1.trace (Dict.keys added.0.1) in
    let kept = add_clusters-keep e cluster m (listing e s.world) s.clusters w1 has in
    let known =
      (add_clusters-Keeps e (Tracked e r cluster service id h0)
          (Tracked-starting e r cluster service id h0) (Tracked-decided e r cluster service id h0)
          (listing e s.world) s.clusters).keep
        w1
        (Tracked-starting e r cluster service id h0 list_clusters s.world lists_clusters
          (inr ([], refl, l))) in
    let (calls, is, i) =
      remove_expired_removes e r cluster service id plain m.cloud h0 (listing e s.world) keys
        added.0.1 added.1 expired
        (contains-order cluster m added.0.1 keys (e.order-perm added.1.trace _) kept)
        (owned e w s cluster m added.0.1 reach has kept) known in
    rw (going, round) (done_within 30 ∷ calls, ap (λ h. done_within 30 ∷ h) is, inr i)

-- ===== src/Controller/Dropped.antt =====
-- What dropping clusters leaves true, whatever their managers are.
use cloud_provider_kind.Base.{
  String, string_eq, contains, Bool-cases, List, [], ◌∷◌, inl, inr, Option-cases,
}
use cloud_provider_kind.Base.Dict
use cloud_provider_kind.Controller.Cancel.Calls.{IsCancelling}
use cloud_provider_kind.Controller.Cancel.Keeps.{cancel_fn-Keeps}
use cloud_provider_kind.Controller.Rounds.{Clusters, drop_cluster, drop_all, remove_expired}
use cloud_provider_kind.World.{Action, Env, World, Keeps}

module _ (e : Env) (P : World → Type 0)
    (law : (a : Action) (w : World)
      → IsCancelling e a
      → P w
      → P (record w { trace = a ∷ w.trace })) where
  pub drop_cluster-Keeps : (c : String) (clusters : Clusters) → Keeps e P (drop_cluster c clusters)
  unfolding drop_cluster
  drop_cluster-Keeps c clusters = record {
    keep = λ w h. elim (Option-cases (Dict.lookup c clusters)) [
      | inl absent ↦ rw (absent, drop_cluster) h
      | inr (m, there) ↦ rw (there, drop_cluster) ((cancel_fn-Keeps e P law m).keep w h)
    ];
  }

  pub drop_all-Keeps :
      (keys : List String) (clusters : Clusters) → Keeps e P (drop_all keys clusters)
  unfolding drop_all
  drop_all-Keeps [] clusters = record { keep = λ w h. h }
  drop_all-Keeps (c ∷ keys) clusters = record {
    keep = λ w h. (drop_all-Keeps keys _).keep _ ((drop_cluster-Keeps c clusters).keep w h);
  }

  pub remove_expired-Keeps :
      (listed keys : List String) (clusters : Clusters)
      → Keeps e P (remove_expired listed keys clusters)
  unfolding remove_expired
  remove_expired-Keeps listed [] clusters = record { keep = λ w h. h }
  remove_expired-Keeps listed (c ∷ keys) clusters = record {
    keep = λ w h. elim (Bool-cases (contains listed c)) [
      | inl here ↦ rw (here, remove_expired) ((remove_expired-Keeps listed keys clusters).keep w h)
      | inr gone ↦
          rw (gone, remove_expired)
            ((remove_expired-Keeps listed keys _).keep _ ((drop_cluster-Keeps c clusters).keep w h))
    ];
  }

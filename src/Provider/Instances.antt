-- ===== src/Provider/Instances.antt =====
-- What the node controller is told of a node.
use cloud_provider_kind.Base.{
  String, ◌<>◌, ◌==◌, ==-ne, string_eq, Bool-cases, eq_of_==, ne_of_==, ◌≡◌, ◌↔◌, ◌≢◌, refl, arith,
  true, List, [], ◌∷◌, inl, inr, In,
}
use cloud_provider_kind.Provider.{
  Cloud, find_node, node_of, find_node_by_name, instance_exists, instance_shutdown, exists_of,
  shutdown_of,
}
use cloud_provider_kind.World.{Err, errorf, Result, ok, err, KindNode, list_nodes, Env, World}

-- No error of `findNodeByName` is or wraps `errNodeNotFound`.
find_node_absent :
    (c name : String) (nodes : List KindNode)
    → ((n : KindNode) → In n nodes → n.name ≢ name)
    → find_node c name nodes
      ≡ err (errorf ("node with name " <> (name <> (" does not exist on cluster " <> c))))
unfolding find_node
find_node_absent c name [] absent = refl
find_node_absent c name (n ∷ nodes) absent =
    rw (==-ne n.name name (absent n (inl refl)))
      (find_node_absent c name nodes (λ m i. absent m (inr i)))

-- Where kind lists the nodes of the cluster and none has the name, `InstanceExists` and
-- `InstanceShutdown` both return an error, and the same one: neither tells that the node is gone.
pub instance_never_gone :
    (c : Cloud) (name : String) (nodes : List KindNode) (e : Env) (w : World)
    → let gone : Err =
        errorf ("node with name " <> (name <> (" does not exist on cluster " <> c.cluster_name))) in
      e.answer w.trace (list_nodes c.cluster_name) ≡ ok nodes
      → ((n : KindNode) → In n nodes → n.name ≢ name)
      → ((instance_exists c name e w).0 ≡ err gone) × ((instance_shutdown c name e w).0 ≡ err gone)
unfolding instance_exists instance_shutdown find_node_by_name node_of exists_of shutdown_of
instance_never_gone c name nodes e w listed absent =
    let none_found = find_node_absent c.cluster_name name nodes absent in
    (rw (listed, none_found) refl, rw (listed, none_found) refl)

-- A node of this name that is listed.
abbrev pub Listed : String → List KindNode → Type 0
Listed name nodes = (n : KindNode) × In n nodes × (n.name ≡ name)

find_node_sound :
    (c name : String) (nodes : List KindNode) (n : KindNode)
    → find_node c name nodes ≡ ok n
    → In n nodes × (n.name ≡ name)
unfolding find_node
find_node_sound c name [] n h = cc
find_node_sound c name (m ∷ nodes) n h = elim (Bool-cases (m.name == name)) [
  | inl same ↦
      let e : ok m ≡ ok n = rw same at h in
      let e' : m ≡ n = cc in (inl (cc), rw (← e') (eq_of_== m.name name same))
  | inr other ↦ let (i, p) = find_node_sound c name nodes n (rw other at h) in (inr i, p)
]

find_node_complete :
    (c name : String) (nodes : List KindNode)
    → Listed name nodes
    → (n : KindNode) × (find_node c name nodes ≡ ok n)
unfolding find_node
find_node_complete c name [] (n, i, p) = elim i [ ]
find_node_complete c name (m ∷ nodes) (n, i, p) = elim (Bool-cases (m.name == name)) [
  | inl same ↦ (m, rw same)
  | inr other ↦ elim i [
    | inl e ↦ absurd (ne_of_== m.name name other (rw (← e) p))
    | inr i' ↦ let (k, q) = find_node_complete c name nodes (n, i', p) in (k, rw other q)
  ]
]

exists_of-ok : (r : Result KindNode) → exists_of r ≡ ok true → (n : KindNode) × (r ≡ ok n)
unfolding exists_of
exists_of-ok (ok n) h = (n, refl)
exists_of-ok (err x) h = absurd (ground arith)

node_of-ok :
    (c name : String) (r : Result (List KindNode)) (n : KindNode)
    → node_of c name r ≡ ok n
    → (nodes : List KindNode) × (r ≡ ok nodes) × Listed name nodes
unfolding node_of
node_of-ok c name (ok nodes) n h =
    let (i, p) = find_node_sound c name nodes n h in (nodes, refl, (n, i, p))
node_of-ok c name (err x) n h = absurd (cc)

-- A node exists, for `InstanceExists`, exactly if kind lists a node of that name in the cluster of
-- the cloud.
pub instance_exists_iff :
    (c : Cloud) (name : String) (e : Env) (w : World)
    → ((instance_exists c name e w).0 ≡ ok true) ↔ (
        (nodes : List KindNode) × (e.answer w.trace (list_nodes c.cluster_name) ≡ ok nodes)
        × Listed name nodes)
unfolding instance_exists find_node_by_name
instance_exists_iff c name e w = (to, from)
  where
    r : Result (List KindNode)
    r = e.answer w.trace (list_nodes c.cluster_name)

    to :
        exists_of (node_of c.cluster_name name r) ≡ ok true
        → (nodes : List KindNode) × (r ≡ ok nodes) × Listed name nodes
    to h = let (n, q) = exists_of-ok _ h in node_of-ok c.cluster_name name r n q

    from :
        ((nodes : List KindNode) × (r ≡ ok nodes) × Listed name nodes)
        → exists_of (node_of c.cluster_name name r) ≡ ok true
    from (nodes, q, l) =
        let (n, found) = find_node_complete c.cluster_name name nodes l in
        rw q (unfold node_of exists_of in rw found)

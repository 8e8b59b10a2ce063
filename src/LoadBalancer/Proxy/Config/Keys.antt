-- ===== src/LoadBalancer/Proxy/Config/Keys.antt =====
-- Keys of different listeners differ.
use cloud_provider_kind.Base.{String, ◌<>◌, ℕ, char_eq, ◌≡◌, sym, ◌∙◌, ap, arith, [], ◌∷◌}
use cloud_provider_kind.Base.Decimal.{itoa, itoa-injective, itoa-Lacks}
use cloud_provider_kind.Base.Text.{split, Lacks, split-append, split-Lacks, singleton-append}
use cloud_provider_kind.Api.{SpecPort}
use cloud_provider_kind.LoadBalancer.Proxy.Config.{key_of}

bar-append : (t : String) → "_" <> t ≡ String.◌∷◌ "_" t
bar-append t = singleton-append "_" t

itoa-Lacks_bar : (n : ℕ) → Lacks "_" (itoa n)
itoa-Lacks_bar = itoa-Lacks "_" (λ d h e. omega arith)

split-key_of :
    (f : String) (p : SpecPort)
    → Lacks "_" f
    → Lacks "_" p.protocol
    → split (key_of f p) "_" ≡ f ∷ itoa p.port ∷ p.protocol ∷ []
unfolding key_of
split-key_of f p hf hp = rw (
  bar-append p.protocol,
  bar-append _,
  split-append f "_" _ hf,
  split-append (itoa p.port) "_" _ (itoa-Lacks_bar p.port),
  split-Lacks p.protocol "_" hp,
)

-- A key gives back the family, the number and the protocol, where neither the family nor the
-- protocol holds an underscore.
pub key_of-injective :
    (f g : String) (p q : SpecPort)
    → Lacks "_" f
    → Lacks "_" g
    → Lacks "_" p.protocol
    → Lacks "_" q.protocol
    → key_of f p ≡ key_of g q
    → (f ≡ g) × (p.port ≡ q.port) × (p.protocol ≡ q.protocol)
key_of-injective f g p q hf hg hp hq e =
    let parts : f ∷ itoa p.port ∷ p.protocol ∷ [] ≡ g ∷ itoa q.port ∷ q.protocol ∷ [] =
      sym (split-key_of f p hf hp) ∙ ap (λ (k : String). split k "_") e ∙ split-key_of g q hg hq in
    let number : itoa p.port ≡ itoa q.port = cc in (cc, itoa-injective p.port q.port number, cc)

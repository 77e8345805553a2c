-- ===== src/Host/Agent/Endpoint.antt =====
-- The endpoint that engine/host.py hands to the host agent, read back.
use Prim.Native.String.{◌++◌}
use infinity_proxy.Prelude.{
  ℕ, ◌≡◌, refl, ap, ◌∙◌, String, true, false, Option, some, List, [], ◌∷◌, map, contains, ◌==◌,
  ==_refl, Bool-cases, inl, inr, arith,
}
use mathlib.Core.List.{◌++◌ as ◌+++◌}
use infinity_proxy.Prelude.Text.{
  has, rpartition, rpartition-append, append_assoc, append-single, is_text-append,
}
use infinity_proxy.Models.{Tunnel}
use infinity_proxy.Host.{up_tunnels}
use infinity_proxy.Host.Agent.{endpoint_text, endpoint_port, tunnel_at, tunnel_if, endpoint_tunnel}

abbrev pub port_of : Tunnel → ℕ
port_of t = t.port

tunnel_at-append :
    (t : Tunnel) (before after : List Tunnel)
    → contains t.port (map port_of before) ≡ false
    → tunnel_at t.port (before +++ (t ∷ after)) ≡ some t.tunnel_id
tunnel_at-append t [] after h = rw (==_refl t.port) refl
tunnel_at-append t (u ∷ before) after h = elim (Bool-cases (u.port == t.port)) [
  | inl is ↦ absurd (grind (arith, h, is))
  | inr is ↦ rw is (tunnel_at-append t before after (rw is at h))
]

endpoint_port-endpoint_text :
    (decimal : ℕ → String) (int : String → Option ℕ) (n : ℕ)
    → has b':' (decimal n) ≡ false
    → int (decimal n) ≡ some n
    → endpoint_port int (some (endpoint_text decimal n)) ≡ some n
unfolding endpoint_port
endpoint_port-endpoint_text decimal int n plain reads =
    let cut : rpartition b':' (endpoint_text decimal n) ≡ ("127.0.0.1", true, decimal n) =
      ap (rpartition b':') (
        append_assoc "127.0.0.1" ":" (decimal n)
        ∙ ap (λ s. "127.0.0.1" ++ s) (append-single ":" (decimal n)))
      ∙ rpartition-append "127.0.0.1" ":" (decimal n) plain in
    rw (is_text-append "127.0.0.1:" (decimal n) refl) (ap (λ r. int r.2) cut ∙ reads)

-- The endpoint that is posted for a tunnel that is up names this tunnel again, where none before it
-- has its port, and the printed port holds no colon and is read as itself.
pub endpoint_tunnel-endpoint_text :
    (decimal : ℕ → String) (int : String → Option ℕ) (ts before after : List Tunnel) (t : Tunnel)
    → up_tunnels ts ≡ before +++ (t ∷ after)
    → contains t.port (map port_of before) ≡ false
    → has b':' (decimal t.port) ≡ false
    → int (decimal t.port) ≡ some t.port
    → endpoint_tunnel int (some (true, some (endpoint_text decimal t.port))) ts ≡ some t.tunnel_id
unfolding endpoint_tunnel
endpoint_tunnel-endpoint_text decimal int ts before after t up alone plain reads =
    ap (λ o. tunnel_if o ts) (endpoint_port-endpoint_text decimal int t.port plain reads)
    ∙ ap (tunnel_at t.port) up
    ∙ tunnel_at-append t before after alone

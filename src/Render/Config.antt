-- ===== src/Render/Config.antt =====
-- render_config of engine/tunnel/config.py, and what the configuration promises sing-box.
use Prim.Native.String.{◌++◌ as ◌<>◌}
use infinity_proxy.Prelude.{
  ℕ, String, ◌≡◌, ◌≤◌, length, refl, ap, ◌∙◌, Option, none, some, List, [], ◌∷◌, ◌++◌, map, arith,
}
use infinity_proxy.Models.{Node, Tunnel}
use infinity_proxy.Render.{Outcome, ok, ◌>>=◌, Yields, Yields-then, Library, Outbound}
use infinity_proxy.Render.Fits.{FitsAs, outbound_from_node-Fits}
use infinity_proxy.Render.Builders.{node_tag, outbound_from_node}

pub data Entry : Type 0 where
  dial_entry : Outbound → Entry
  block : String → Entry
  urltest : String → List String → Option String → Entry

-- what varies of the configuration: the inbound's port and user, the outbounds, and `final`
pub record SingBox : Type 0 where
  pub listen_port : ℕ
  pub username : String
  pub password : String
  pub outbounds : List Entry
  pub final : String

-- `[_outbound_from_node(n) for n in nodes]`
unfoldable pub outbounds_of : Library → List Node → Outcome (List Entry)
outbounds_of lib [] = ok []
outbounds_of lib (n ∷ ns) =
    outbound_from_node lib n >>= λ o. outbounds_of lib ns >>= λ os. ok (dial_entry o ∷ os)

abbrev pub interval_of : Library → Option ℕ → Option String
interval_of lib none = none
interval_of lib (some seconds) = some (lib.decimal seconds <> "s")

-- the placeholder of a tunnel without nodes
abbrev pub or_block : List Entry → List Entry
or_block [] = block "blocker" ∷ []
or_block (o ∷ os) = o ∷ os

abbrev pub tags_or_block : List String → List String
tags_or_block [] = "blocker" ∷ []
tags_or_block (t ∷ ts) = t ∷ ts

unfoldable pub render_config : Library → Tunnel → List Node → Option ℕ → Outcome SingBox
unfolding outbounds_of
render_config lib tunnel nodes interval = outbounds_of lib nodes >>= λ outbounds. ok (record {
  listen_port = tunnel.port;
  username = tunnel.username;
  password = tunnel.password;
  outbounds =
      or_block outbounds
      ++ urltest "rotator" (tags_or_block (map (node_tag lib) nodes)) (interval_of lib interval)
        ∷ [];
  final = "rotator";
})

abbrev pub tag_of : Entry → String
tag_of (dial_entry o) = o.tag
tag_of (block t) = t
tag_of (urltest t members interval) = t

outbounds_of-tags :
    (lib : Library) (nodes : List Node)
    → Yields (λ os. map tag_of os ≡ map (node_tag lib) nodes) (outbounds_of lib nodes)
unfolding outbounds_of
outbounds_of-tags lib [] = refl
outbounds_of-tags lib (n ∷ ns) =
    Yields-then (FitsAs n.protocol (node_tag lib n)) _ (outbound_from_node lib n) _
      (outbound_from_node-Fits lib n)
      (λ o fits.
        Yields-then _ _ (outbounds_of lib ns) _ (outbounds_of-tags lib ns)
          (λ os tags i. fits.0 i ∷ tags i))

or_block-tags : (os : List Entry) → map tag_of (or_block os) ≡ tags_or_block (map tag_of os)
or_block-tags [] = refl
or_block-tags (o ∷ os) = refl

one_member : (tags : List String) → 1 ≤ length (tags_or_block tags)
one_member [] = omega arith
one_member (t ∷ ts) = omega arith

-- The configuration of a tunnel closes: traffic goes to the outbound of the last entry, which picks
-- among exactly the outbounds before it, and there is at least one of them, the placeholder where
-- the tunnel has no nodes.
pub render_config-closes :
    (lib : Library) (tunnel : Tunnel) (nodes : List Node) (interval : Option ℕ)
    → let members = tags_or_block (map (node_tag lib) nodes) in
      Yields
        (λ c.
          (os : List Entry) × (c.outbounds
            ≡ os ++ urltest c.final members (interval_of lib interval) ∷ [])
          × (map tag_of os ≡ members)
          × (1 ≤ length members))
        (render_config lib tunnel nodes interval)
unfolding render_config
render_config-closes lib tunnel nodes interval =
    Yields-then _ _ (outbounds_of lib nodes) _ (outbounds_of-tags lib nodes)
      (λ os tags. (or_block os, refl, or_block-tags os ∙ ap tags_or_block tags, one_member _))

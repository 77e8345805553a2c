-- ===== src/Examples/Hosts.antt =====
-- Examples: the host controller, and the theorems about it.
use infinity_proxy.Prelude.{◌≡◌, refl, true, false, some, [], ◌∷◌}
use infinity_proxy.Prelude.Text.{has}
use infinity_proxy.Config.{default_settings}
use infinity_proxy.Host.{Watch, fresh_controller, up_tunnels, pick_best}
use infinity_proxy.Host.Picked.{IsPick, HoldsPick, pick_best-IsPick}
use infinity_proxy.Host.Agent.{endpoint_text, endpoint_tunnel}
use infinity_proxy.Host.Agent.Endpoint.{endpoint_tunnel-endpoint_text}
use infinity_proxy.Examples.{tunnel}

abbrev watch : Watch
watch = record {
  now = 100;
  measured_at = λ i. 101;
  picked_at = 102;
  sample_bytes = 2048;
  fetch = λ t. some (record {
    status = 200;
    chunks = 1024 ∷ 2048 ∷ 512 ∷ [];
    breaks = false;
    first_byte = 80;
    download_us = 500_000;
  });
}

pick_best-IsPick_example :
    let (a, h') = pick_best default_settings watch false (tunnel ∷ []) fresh_controller in
    IsPick (tunnel ∷ []) a × HoldsPick h'
pick_best-IsPick_example =
    pick_best-IsPick default_settings watch false (tunnel ∷ []) fresh_controller tt

endpoint_tunnel-endpoint_text_example :
    endpoint_tunnel
      (λ s. some tunnel.port)
      (some (true, some (endpoint_text (λ n. "10000") tunnel.port)))
      (tunnel ∷ [])
    ≡ some 7
unfolding up_tunnels has
endpoint_tunnel-endpoint_text_example =
    endpoint_tunnel-endpoint_text (λ n. "10000") (λ s. some tunnel.port) (tunnel ∷ []) [] [] tunnel
      refl refl refl refl

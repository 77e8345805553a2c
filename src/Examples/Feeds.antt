-- ===== src/Examples/Feeds.antt =====
-- Examples: feeds that are read, and the theorems about them.
use infinity_proxy.Prelude.{
  ◌≡◌, refl, arith, String, true, none, some, [], ◌∷◌, All, ◌==◌, ◌&&◌, leb,
}
use infinity_proxy.Prelude.Text.{has, partition, rpartition, strip_prefix, starts_with, padded}
use infinity_proxy.Models.{vless}
use infinity_proxy.Render.{ok, raised, attribute_error, not_object, Yields}
use infinity_proxy.Scraper.Parse.{
  Parsing, partition_scheme, scheme_of, strip_query_fragment, coerce_port, parse_host_port,
  b64_to_text, parse_vmess,
}
use infinity_proxy.Scraper.Parse.Uri.{parse_plain, parse_uri}
use infinity_proxy.Scraper.Parse.Address.{parse_host_port-append}
use infinity_proxy.Scraper.Parse.Tokens.{
  Feed, word_run, matches_from, rstrip_junk, scheme_tokens, feed_lines, parse_tokens, parse_line,
  parse_lines, parse_feed,
}
use infinity_proxy.Scraper.Parse.Fit.{IsOf, parse_feed-IsOf}

-- every port is read as 443, and every payload as a JSON list
abbrev parsing : Parsing
parsing = record {
  strip = λ s. s;
  lower = λ s. s;
  unquote = λ s. s;
  splitlines = λ s. s ∷ [];
  is_space = λ c. c == 32;
  is_word = λ c. leb 97 c && leb c 122;
  isdigit = λ s. true;
  int = λ s. ok 443;
  urlsafe_b64decode = λ s. some [];
  b64decode = λ s. some [];
  decode_utf8 = λ bs. some "[]";
  loads = λ s. some not_object;
}

abbrev feed : Feed
feed = record { name = "feed"; encoding = "plain"; line_separated = true }

abbrev line : String
line = "x vless://u@h:443?a=b, # avless://u@h:443"

-- the second URI stands behind a word character
line_read :
    parse_feed parsing feed line
    ≡ ok (
        record {
          uri = "vless://u@h:443?a=b";
          protocol = vless;
          server = "h";
          port = 443;
          user = some "u";
          source = "feed";
        }
        ∷ [])
unfolding parse_feed feed_lines parse_lines parse_line parse_tokens scheme_tokens matches_from
    word_run rstrip_junk parse_uri partition_scheme scheme_of strip_query_fragment parse_plain
    parse_host_port coerce_port partition rpartition strip_prefix starts_with
line_read = refl

-- a payload that is no JSON object ends the whole feed
list_refused : parse_feed parsing feed "vmess://W10 vless://u@h:443" ≡ raised attribute_error
unfolding parse_feed feed_lines parse_lines parse_line parse_tokens scheme_tokens matches_from
    word_run rstrip_junk parse_uri partition_scheme scheme_of strip_query_fragment parse_plain
    parse_vmess parse_host_port coerce_port b64_to_text padded partition rpartition strip_prefix
    starts_with
list_refused = refl

parse_feed-IsOf_example : Yields (All (IsOf feed)) (parse_feed parsing feed line)
parse_feed-IsOf_example = parse_feed-IsOf parsing feed line

port_read : parse_host_port parsing none "h:443" ≡ ok (some ("h", 443))
unfolding has
port_read =
    parse_host_port-append parsing none "h" "443" 443 refl refl refl refl (omega arith)
      (omega arith)

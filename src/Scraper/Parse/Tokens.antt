-- ===== src/Scraper/Parse/Tokens.antt =====
-- The tokens of a line and the candidates of a feed, engine/scraper/parse.py.
use Prim.Native.Char.{code}
use Prim.Native.String.{◌++◌ as ◌+++◌}
use infinity_proxy.Prelude.{
  ℕ, String, Bool, false, not, ◌&&◌, ◌||◌, Option, none, some, List, [], ◌∷◌, ◌++◌, map, str_eq,
  is_some, if◌then◌else◌, any, ◌==◌,
}
use infinity_proxy.Prelude.Text.{strip_prefix, starts_with, is_text}
use infinity_proxy.Models.{NodeCandidate}
use infinity_proxy.Render.{Outcome, ok, ◌>>=◌}
use infinity_proxy.Scraper.Parse.{Parsing, b64_to_text}
use infinity_proxy.Scraper.Parse.Uri.{parse_uri}

-- _SCHEMES, the longest first
abbrev pub schemes : List String
schemes =
    "hysteria2" ∷ "trojan" ∷ "socks5" ∷ "vless" ∷ "vmess" ∷ "tuic" ∷ "http" ∷ "ssr" ∷ "hy2" ∷ "ss"
    ∷ []

-- `[^\s]+`, at the beginning
unfoldable pub word_run : Parsing → String → String
word_run p String.[] = ""
word_run p (String.◌∷◌ c s) =
    let rest = word_run p s in if p.is_space (code c) then "" else String.◌∷◌ c rest

abbrev pub after_scheme : Parsing → String → Option String → Option String
after_scheme p head none = none
after_scheme p head (some rest) =
    let run = word_run p rest in if is_text run then some (head +++ run) else none

-- the first alternative of the expression that matches here
abbrev pub match_here : Parsing → List String → String → Option String
match_here p [] s = none
match_here p (scheme ∷ rest) s =
    let others = match_here p rest s in
    let head = scheme +++ "://" in
    elim (after_scheme p head (strip_prefix head s)) [ none ↦ others | some token ↦ some token ]

abbrev pub cons_if : Option String → List String → List String
cons_if none ts = ts
cons_if (some t) ts = t ∷ ts

-- _SCHEME_RE.finditer: `inside` while a match goes on, which it does up to a space, and `behind`
-- whether a word character stands before
unfoldable pub matches_from : Parsing → Bool → Bool → String → List String
matches_from p inside behind String.[] = []
matches_from p inside behind (String.◌∷◌ c s) =
    let here = if inside || behind then none else match_here p schemes (String.◌∷◌ c s) in
    let goes_on = is_some here || (inside && not (p.is_space (code c))) in
    cons_if here (matches_from p goes_on (p.is_word (code c)) s)

-- _TRAILING_JUNK
abbrev pub is_junk : ℕ → Bool
is_junk c =
    any (λ d. c == d) (b',' ∷ b';' ∷ b'!' ∷ b'<' ∷ b'>' ∷ 39 ∷ 34 ∷ 96 ∷ b'}' ∷ b']' ∷ b')' ∷ [])

-- token.rstrip(_TRAILING_JUNK)
unfoldable pub rstrip_junk : String → String
rstrip_junk String.[] = ""
rstrip_junk (String.◌∷◌ c s) =
    let rest = rstrip_junk s in
    if not (is_text rest) && is_junk (code c) then "" else String.◌∷◌ c rest

abbrev pub or_line : String → List String → List String
or_line line [] = line ∷ []
or_line line (t ∷ ts) = map rstrip_junk (t ∷ ts)

unfoldable pub scheme_tokens : Parsing → String → List String
scheme_tokens p line = or_line line (matches_from p false false line)

-- the fields of SourceManifest that a feed's parsing reads
pub record Feed : Type 0 where
  pub name : String
  pub encoding : String
  pub line_separated : Bool

abbrev pub decoded_lines : Parsing → List String → List String
decoded_lines p [] = []
decoded_lines p (raw ∷ raws) =
    let rest = decoded_lines p raws in
    elim (b64_to_text p (p.strip raw)) [
      | none ↦ rest
      | some line ↦ if is_text line then line ∷ rest else rest
    ]

abbrev pub lines_of : Parsing → Option String → List String
lines_of p none = []
lines_of p (some text) = p.splitlines text

unfoldable pub feed_lines : Parsing → Feed → String → List String
feed_lines p feed text =
    if str_eq feed.encoding "base64"
    then (if feed.line_separated
        then decoded_lines p (p.splitlines text)
        else lines_of p (b64_to_text p text))
    else map p.strip (p.splitlines text)

abbrev pub tagged : Feed → NodeCandidate → NodeCandidate
tagged feed c = record c { source = feed.name }

abbrev pub keep : Feed → Option NodeCandidate → List NodeCandidate → List NodeCandidate
keep feed none cs = cs
keep feed (some c) cs = tagged feed c ∷ cs

unfoldable pub parse_tokens : Parsing → Feed → List String → Outcome (List NodeCandidate)
parse_tokens p feed [] = ok []
parse_tokens p feed (t ∷ ts) =
    let rest = parse_tokens p feed ts in parse_uri p t >>= λ c. rest >>= λ cs. ok (keep feed c cs)

unfoldable pub parse_line : Parsing → Feed → String → Outcome (List NodeCandidate)
parse_line p feed raw =
    let line = p.strip raw in
    if not (is_text line) || starts_with "#" line
    then ok []
    else parse_tokens p feed (scheme_tokens p line)

unfoldable pub parse_lines : Parsing → Feed → List String → Outcome (List NodeCandidate)
parse_lines p feed [] = ok []
parse_lines p feed (line ∷ lines) =
    let rest = parse_lines p feed lines in
    parse_line p feed line >>= λ cs. rest >>= λ others. ok (cs ++ others)

unfoldable pub parse_feed : Parsing → Feed → String → Outcome (List NodeCandidate)
parse_feed p feed text = parse_lines p feed (feed_lines p feed text)

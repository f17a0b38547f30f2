-- ===== src/Dsh/Ui.antt =====
-- src/backend/dsh/ui.rs: browser URLs in the lines of the daemon's log.
use Prim.Native.Char.{code}
use Prim.Native.String.{String, len}
pub mod Partial
use codex_bridge.Common.{
  ◌||◌, not, Option, none, some, List, [], ◌∷◌, ◌⧺◌, ◌==◌, ltb, nat_eq, if◌then◌else◌, last,
  keep_if, unwrap_or, and_then,
}
use codex_bridge.Common.Text.{strip_prefix, token}
use codex_bridge.Host.{Outside}

unfoldable pub setting : Outside → String → String → String
setting o name default = unwrap_or (keep_if (λ s. not (s == "")) (o.env name)) default

unfoldable pub ui_port : Outside → String
unfolding setting
ui_port o = setting o "AGENT_BRIDGE_DSH_UI_PORT" "12899"

-- The text up to its last line break, that included.
unfoldable pub complete_lines : String → String
complete_lines String.[] = String.[]
complete_lines (String.◌∷◌ c s) =
    let rest = complete_lines s in
    if nat_eq (code c) 10 || not (rest == "") then String.◌∷◌ c rest else String.[]

abbrev pub prefix_text : String
prefix_text = "dsh web: "

-- What `filter_map` makes of the text behind a match; it begins with "http://", so that its first
-- word begins there.
unfoldable pub url_after : String → Option String
unfolding token strip_prefix
url_after rest = elim (strip_prefix "http://" rest) [
  | none ↦ none
  | some _ ↦ let url = token rest in if ltb 7 (len url) then some url else none
]

-- The matches do not overlap: the prefix begins with the only `d` that it has.
unfoldable pub ui_url_matches : String → List String
unfolding strip_prefix url_after
ui_url_matches String.[] = []
ui_url_matches (String.◌∷◌ c s) =
    let later = ui_url_matches s in
    elim (and_then (strip_prefix prefix_text (String.◌∷◌ c s)) url_after) [
      | none ↦ later
      | some url ↦ url ∷ later
    ]

unfoldable pub last_complete_ui_url : String → Option String
unfolding ui_url_matches complete_lines
last_complete_ui_url log = last (ui_url_matches (complete_lines log))

abbrev first : List String → Option String
first [] = none
first (x ∷ xs) = some x

unfoldable pub first_complete_ui_url : String → Option String
unfolding ui_url_matches complete_lines
first_complete_ui_url tail = first (ui_url_matches (complete_lines tail))

-- The log's text is `none` where it cannot be read.
unfoldable pub logged_ui_url : Option String → Option String
unfolding last_complete_ui_url
logged_ui_url log = and_then log last_complete_ui_url

unfoldable pub ui_url : Outside → Option String → String
unfolding logged_ui_url ui_port
ui_url o log = unwrap_or (logged_ui_url log) ("http://127.0.0.1:" ⧺ ui_port o ⧺ "/")

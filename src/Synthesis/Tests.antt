-- ===== src/Synthesis/Tests.antt =====
-- Concrete lines and files for the theorems of the synthesis parser.
use urpm_ng.Base.{
  Text, List, codes, none, some, refl, [], ◌∷◌, ◌++◌, ◌≡◌, strip, lstrip, rstrip, is_space,
  starts_with, ◌==◌,
}
use urpm_ng.Orphans.Rpmdb.{Header}
use urpm_ng.Synthesis.Lines.{
  split_synthesis_line, is_closed, split_synthesis_line-join, depth_after, divides, split_from,
}
use urpm_ng.Synthesis.Blocks.{no_tags, parse_lines, parse_lines-append, is_info, info_fields}

abbrev browser : Header
browser = record {
  name = codes "browser";
  epoch = some 12;
  version = codes "24.2-rc";
  release = codes "1.mga9";
  arch = none;
  size = none;
  provides = [];
  requires = [];
  recommends = [];
  suggests = [];
  supplements = [];
}

-- the fields of a `@provides` line, one of them with an `@` inside parentheses
abbrev provided : List Text
provided = [] ∷ codes "provides" ∷ codes "bundled(npm(@xterm/addon))" ∷ codes "app[== 1.0]" ∷ []

split_synthesis_line-join_example :
    split_synthesis_line (codes "@provides@bundled(npm(@xterm/addon))@app[== 1.0]") ≡ provided
split_synthesis_line-join_example =
    split_synthesis_line-join provided
      (unfold is_closed divides depth_after in (refl, (refl, (refl, (refl, tt))))) refl

abbrev first_lines : List Text
first_lines = codes "@summary@An app" ∷ codes "" ∷ codes "@provides@app" ∷ []

abbrev last_lines : List Text
last_lines = codes "@info@lib-2-1.noarch@1@90@System" ∷ []

parse_lines-append_example :
    parse_lines no_tags (first_lines ++ codes "@info@app-1-1.x86_64@0@70@Games" ∷ last_lines)
    ≡ parse_lines no_tags (first_lines ++ codes "@info@app-1-1.x86_64@0@70@Games" ∷ [])
      ++ parse_lines no_tags last_lines
parse_lines-append_example =
    parse_lines-append no_tags first_lines last_lines (codes "@info@app-1-1.x86_64@0@70@Games") (
      unfold strip lstrip rstrip is_space starts_with ◌==◌ is_info info_fields split_synthesis_line
        split_from divides depth_after in
      refl)

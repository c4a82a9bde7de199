-- ===== src/FileLinks/Tests.antt =====
-- A relative path with lines, and a link to the web.
use open_pi.Prelude.{◌≡◌, refl, Option, none, some}
use open_pi.Text.{
  Text, units, text_eq, trim, trim_start, is_space, to_lower, lower_unit, starts_with,
}
use open_pi.Text.Decimal.{parse_int}
use open_pi.Text.Tags.{starts_with_i}
use open_pi.FileLinks.{
  ParsedUrl, is_web_link, cut_hash, without_file, without_end_slashes, drop_any_slashes,
  has_path_prefix, has_known_extension, extension, plain_path, line_number, second_line, hash_lines,
  file_link, path_of, parse_file_link,
}
use open_pi.FileLinks.Paths.{IsLinkOrNone, parse_file_link-IsLink}

-- a parser that takes no URL
abbrev no_url : Text → Option ParsedUrl
no_url s = none

abbrev source_link : Text
source_link = units "src/main.ts#L10-L25"

source_parsed :
    parse_file_link no_url some source_link
    ≡ some (record {
      file_path = units "src/main.ts";
      line_start = some 10;
      line_end = some 25;
      raw_href = source_link;
    })
unfolding parse_file_link is_web_link cut_hash path_of plain_path without_file without_end_slashes
    drop_any_slashes has_path_prefix has_known_extension extension line_number second_line
    hash_lines file_link starts_with_i starts_with text_eq trim trim_start is_space to_lower
    lower_unit parse_int
source_parsed = refl

web_refused : parse_file_link no_url some (units "https://a.b/c.ts") ≡ none
unfolding parse_file_link is_web_link trim trim_start is_space starts_with_i
web_refused = refl

parse_file_link-IsLink_example : IsLinkOrNone source_link (parse_file_link no_url some source_link)
parse_file_link-IsLink_example = parse_file_link-IsLink no_url some source_link

-- ===== src/Export/Tests.antt =====
-- A title with white space and a slash.
use open_pi.Prelude.{refl, none, some, All}
use open_pi.Text.{units, is_space, to_lower}
use open_pi.Export.{generate_export_filename}
use open_pi.Export.Filename.{IsSafe, generate_export_filename-IsSafe}

year-IsSafe : All IsSafe (units "2026")
unfolding is_space
year-IsSafe = ((refl, refl), ((refl, refl), ((refl, refl), ((refl, refl), tt))))

generate_export_filename-IsSafe_example :
    All IsSafe (generate_export_filename to_lower (some (units "fix a/b")) none (units "2026"))
generate_export_filename-IsSafe_example =
    generate_export_filename-IsSafe to_lower (some (units "fix a/b")) none (units "2026")
      year-IsSafe

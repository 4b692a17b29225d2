-- ===== src/Service/Title.antt =====
-- `_role_company_from_title` (src/z_apply_core/integrations/service.py), with `clean_job_metadata`
-- (src/z_apply_core/text_utils.py).
use z_apply_core.Prelude.{
  ℕ, String, ◌||◌, Option, none, some, List, [], ◌∷◌, strip, is_blank, strip_prefix, take_text,
  if◌then◌else◌,
}
use Prim.Native.String

-- `_JOB_TITLE_SEPARATORS`
abbrev job_title_separators : List String
job_title_separators = " | " ∷ " – " ∷ " — " ∷ " - " ∷ []

abbrev job_metadata_max_length : ℕ
job_metadata_max_length = 120

unfoldable pub clean_job_metadata : String → String
unfolding strip take_text
clean_job_metadata value = take_text job_metadata_max_length (strip value)

abbrev cut_here : String → Option String → Option (String × String) → Option (String × String)
cut_here first (some rest) later = some (String.[], rest)
cut_here first none none = none
cut_here first none (some (left, right)) = some (String.◌++◌ first left, right)

-- `title.partition(separator)`, if the separator is found.
unfoldable pub partition : String → String → Option (String × String)
unfolding strip_prefix
partition separator String.[] = none
partition separator (String.◌∷◌ c s) =
    let later = partition separator s in
    cut_here (String.◌∷◌ c String.[]) (strip_prefix separator (String.◌∷◌ c s)) later

-- The role and the company of the two sides of a separator.
abbrev role_company : Option (String × String) → Option (String × String)
role_company none = none
role_company (some (left, right)) =
    if is_blank (clean_job_metadata left) || is_blank (clean_job_metadata right)
    then none
    else some (clean_job_metadata left, clean_job_metadata right)

abbrev first_of : Option (String × String) → Option (String × String) → Option (String × String)
first_of none later = later
first_of (some found) later = some found

unfoldable pub title_parts : List String → String → Option (String × String)
unfolding partition clean_job_metadata
title_parts [] title = none
title_parts (separator ∷ separators) title =
    first_of (role_company (partition separator title)) (title_parts separators title)

unfoldable pub role_company_from_title : String → Option (String × String)
unfolding title_parts
role_company_from_title title = title_parts job_title_separators title

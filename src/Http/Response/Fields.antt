-- ===== src/Http/Response/Fields.antt =====
-- CHttpResponse::AddField, and the fields that are looked up behind it.
use byron0416_mp.Prelude.OrderedMap.{find, find-insert_new, find-assign}
use byron0416_mp.Prelude.{◌≡◌, some, inl, inr, Option-cases, if◌then◌else◌}
use byron0416_mp.Text.{Text, text_key}
use byron0416_mp.Http.Response.{Response, add_field}

-- After AddField the field has the given value, whether or not the response had one of that name,
-- and the other fields are as they were.
pub add_field_lem :
    (r : Response) (name value other : Text)
    → find other (add_field r name value).fields
      ≡ (if text_key.beq name other then some value else find other r.fields)
unfolding add_field
add_field_lem r name value other = elim (Option-cases (find name r.fields)) [
  | inl absent ↦ rw (absent, add_field) (find-insert_new name other value r.fields absent)
  | inr (old, present) ↦ rw (present, add_field) (find-assign name other value old r.fields present)
]

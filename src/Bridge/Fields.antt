-- ===== src/Bridge/Fields.antt =====
-- src/pin_bridge_vm.cpp: the fields of the tile.
use sovereign_windows_auth.Base.{
  ℕ, Bool, true, false, ◌&&◌, List, [], ◌∷◌, Option, none, some, String, ◌==◌, leb, if◌then◌else◌,
  get_or,
}
use sovereign_windows_auth.Filter.Types.{HResult, s_ok, e_pointer, e_invalidarg, e_outofmemory}
use sovereign_windows_auth.Bridge.Tile.{pin_id}

abbrev pub lab_field_count : ℕ
lab_field_count = 4

abbrev pub submit_id : ℕ
submit_id = 3

abbrev pub lab_labels : List String
lab_labels = "PIN bridge lab" ∷ "Disposable VM compatibility test" ∷ "Lab PIN" ∷ "Test sign-in" ∷ []

pub data LabFieldType : Type 0 where
  large_text small_text password_text submit_button : LabFieldType

abbrev pub lab_types : List LabFieldType
lab_types = large_text ∷ small_text ∷ password_text ∷ submit_button ∷ []

-- `text`: whether the output pointer is there, and whether the copy succeeds.
unfoldable pub lab_text : Bool → Bool → String → HResult × Option String
lab_text false copies value = (e_pointer, none)
lab_text true false value = (e_outofmemory, none)
lab_text true true value = (s_ok, some value)

-- Every field is displayed in the selected tile; the second part is whether it has the focus.
unfoldable pub lab_field_state : Bool → ℕ → HResult × Option Bool
lab_field_state false id = (e_pointer, none)
lab_field_state true id =
    if leb lab_field_count id then (e_invalidarg, none) else (s_ok, some (id == pin_id))

-- The PIN is not read back.
unfoldable pub lab_string_value : Bool → Bool → ℕ → HResult × Option String
unfolding lab_text
lab_string_value present copies id =
    if leb lab_field_count id
    then (e_invalidarg, none)
    else lab_text present copies (if id == pin_id then "" else get_or lab_labels id "")

unfoldable pub lab_submit_button : Bool → ℕ → HResult × Option ℕ
lab_submit_button false id = (e_pointer, none)
lab_submit_button true id = if id == submit_id then (s_ok, some pin_id) else (e_invalidarg, none)

pub record LabDescriptor : Type 0 where
  pub id : ℕ
  pub kind : LabFieldType
  pub label : String

unfoldable pub lab_descriptor_at : Bool → Bool → Bool → ℕ → HResult × Option LabDescriptor
lab_descriptor_at false allocates copies index = (e_pointer, none)
lab_descriptor_at true allocates copies index =
    if leb lab_field_count index
    then (e_invalidarg, none)
    else (if allocates && copies
        then (
          s_ok,
          some (record {
            id = index;
            kind = get_or lab_types index small_text;
            label = get_or lab_labels index "";
          }),
        )
        else (e_outofmemory, none))

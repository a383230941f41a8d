-- ===== src/Provider/Fields.antt =====
-- src/provider.cpp: the fields of the tile, in the classes Credential and Provider.
use sovereign_windows_auth.Base.{
  ℕ, Bool, true, false, ◌||◌, ◌&&◌, List, [], ◌∷◌, Option, none, some, String, ◌==◌, leb,
  if◌then◌else◌, get_or,
}
use sovereign_windows_auth.Filter.Types.{HResult, s_ok, e_pointer, e_invalidarg, e_outofmemory}
use sovereign_windows_auth.Provider.Credential.{Credential}

abbrev pub field_count : ℕ
field_count = 5

-- `enum Field`.
abbrev pub title : ℕ
title = 0

abbrev pub status_field : ℕ
status_field = 1

abbrev pub submit : ℕ
submit = 2

abbrev pub logo : ℕ
logo = 3

abbrev pub provider_label : ℕ
provider_label = 4

abbrev pub labels : List String
labels =
    "Sovereign key" ∷ "Touch your key to sign in" ∷ "Sign in" ∷ "Sovereign key icon"
    ∷ "Sovereign key" ∷ []

pub data FieldType : Type 0 where
  large_text small_text submit_button tile_image : FieldType

abbrev pub types : List FieldType
types = large_text ∷ small_text ∷ submit_button ∷ tile_image ∷ small_text ∷ []

pub data FieldState : Type 0 where
  hidden display_in_both display_in_selected_tile : FieldState

-- `present`: no output pointer is null. The interactive state is always CPFIS_NONE.
unfoldable pub get_field_state : Bool → ℕ → HResult × Option FieldState
get_field_state false field = (e_pointer, none)
get_field_state true field = if leb field_count field then (e_invalidarg, none) else (
  s_ok,
  some (
      if field == provider_label
      then hidden
      else (if field == title || field == logo then display_in_both else display_in_selected_tile)),
)

-- `textCopy`: `present` is whether the output pointer is not null, `copies` whether there is memory.
unfoldable pub text_copy : Bool → Bool → String → HResult × Option String
text_copy false copies value = (e_pointer, none)
text_copy true false value = (e_outofmemory, none)
text_copy true true value = (s_ok, some value)

unfoldable pub get_string_value : Bool → Bool → ℕ → Credential → HResult × Option String
get_string_value present copies field c =
    if leb field_count field
    then (e_invalidarg, none)
    else text_copy present copies
        (if field == status_field then c.status else get_or labels field "")

unfoldable pub get_submit_button_value : Bool → ℕ → HResult × Option ℕ
get_submit_button_value false field = (e_pointer, none)
get_submit_button_value true field =
    if field == submit then (s_ok, some status_field) else (e_invalidarg, none)

pub record Descriptor : Type 0 where
  pub id : ℕ
  pub kind : FieldType
  pub is_provider_logo : Bool
  pub is_provider_label : Bool
  pub label : String

-- `allocates` and `copies` are the two allocations.
unfoldable pub get_field_descriptor_at : Bool → Bool → Bool → ℕ → HResult × Option Descriptor
get_field_descriptor_at false allocates copies index = (e_pointer, none)
get_field_descriptor_at true allocates copies index =
    if leb field_count index
    then (e_invalidarg, none)
    else (if allocates && copies
        then (
          s_ok,
          some (record {
            id = index;
            kind = get_or types index small_text;
            is_provider_logo = index == logo;
            is_provider_label = index == provider_label;
            label = get_or labels index "";
          }),
        )
        else (e_outofmemory, none))

-- ===== src/Plist/Xml.antt =====
-- Property lists in XML, as far as plist_darwin.go writes them: a description of the format by a reader,
-- which stands apart from `renderPlist`. It says what plutil is relied on to read, and accepts less
-- than plutil does.
pub mod Texts
pub mod Rendered
use touchid_agent.Prelude.{
  ℕ, zero, suc, Bool, true, false, ◌&&◌, ◌||◌, List, [], ◌∷◌, Option, none, some, ltb, leb, not,
  length, ◌==◌, if◌then◌else◌,
}
use touchid_agent.Text.{Text, codes, equal, has_prefix, is_empty}
use touchid_agent.Plist.{
  Json, text, flag, array, object, other, Elements, no_elements, element, Fields, no_fields, field,
}

-- A text at each `<`: what stands before the first, and what stands behind each.
unfoldable pub chunks : Text → Text × List Text
chunks [] = ([], [])
chunks (c ∷ s) = let (u, us) = chunks s in if c == b'<' then ([], u ∷ us) else (c ∷ u, us)

onto_first : ℕ → Option (Text × Text) → Option (Text × Text)
onto_first c none = none
onto_first c (some (u, v)) = some (c ∷ u, v)

-- A chunk at its first `>`: the name of the tag, and what stands behind the tag.
unfoldable pub cut_tag : Text → Option (Text × Text)
unfolding onto_first
cut_tag [] = none
cut_tag (c ∷ s) = let later = onto_first c (cut_tag s) in if c == b'>' then some ([], s) else later

unfoldable pub is_blank : Text → Bool
is_blank [] = true
is_blank (c ∷ s) = (c == b' ' || c == b'\n') && is_blank s

is_digits : Text → Bool
is_digits [] = true
is_digits (c ∷ s) = leb b'0' c && leb c b'9' && is_digits s

unfoldable pub is_number : Text → Bool
unfolding is_digits
is_number s = is_digits s && not (is_empty s) && leb (length s) 9

-- A character that XML allows as it is.
abbrev pub is_char : ℕ → Bool
is_char c = leb 32 c && ltb c 0xd800

abbrev pub with_char : ℕ → Option Text → Option Text
with_char c none = none
with_char c (some s) = some (c ∷ s)

-- The text that a content stands for: characters, and three entities. The number counts what is left of
-- an entity.
unfoldable pub content : ℕ → Text → Option Text
content left [] = if left == 0 then some [] else none
content (suc left) (c ∷ s) = content left s
content zero (c ∷ s) =
    let amp = with_char b'&' (content 4 s) in
    let lt = with_char b'<' (content 3 s) in
    let gt = with_char b'>' (content 3 s) in
    let plain = with_char c (content 0 s) in
    if c == b'&'
    then (if has_prefix s (codes "amp;")
        then amp
        else if has_prefix s (codes "lt;")
        then lt
        else if has_prefix s (codes "gt;")
        then gt
        else none)
    else if is_char c
    then plain
    else none

pub data Tag : Type 0 where
  declaration doctype open_plist close_plist open_dict close_dict open_array close_array : Tag
  open_key close_key open_string close_string open_integer close_integer true_tag : Tag

unfoldable pub tag_of : Text → Option Tag
tag_of n =
    if equal n (codes "?xml version=\"1.0\" encoding=\"UTF-8\"?")
    then some declaration
    else if equal n (
        codes
          "!DOCTYPE plist PUBLIC \"-//Apple//DTD PLIST 1.0//EN\" \"http://www.apple.com/DTDs/PropertyList-1.0.dtd\"")
    then some doctype
    else if equal n (codes "plist version=\"1.0\"")
    then some open_plist
    else if equal n (codes "/plist")
    then some close_plist
    else if equal n (codes "dict")
    then some open_dict
    else if equal n (codes "/dict")
    then some close_dict
    else if equal n (codes "array")
    then some open_array
    else if equal n (codes "/array")
    then some close_array
    else if equal n (codes "key")
    then some open_key
    else if equal n (codes "/key")
    then some close_key
    else if equal n (codes "string")
    then some open_string
    else if equal n (codes "/string")
    then some close_string
    else if equal n (codes "integer")
    then some open_integer
    else if equal n (codes "/integer")
    then some close_integer
    else if equal n (codes "true/")
    then some true_tag
    else none

-- A text is read from its end. A frame is an element whose end has been read, with what stands in it
-- so far; a dictionary may have a value that waits for its key. The last three frames are the property
-- list, with the document type and with the declaration before it.
pub data Frame : Type 0 where
  in_plist : Option Json → Frame
  in_array : Elements → Frame
  in_dict : Option Json → Fields → Frame
  in_key in_string in_integer : Frame
  whole typed declared : Fields → Frame

abbrev pub Frames : Type 0
Frames = Option (List Frame)

unfoldable pub put : Json → List Frame → Frames
put v (in_plist none ∷ fs) = some (in_plist (some v) ∷ fs)
put v (in_array vs ∷ fs) = some (in_array (element v vs) ∷ fs)
put v (in_dict none raw ∷ fs) = some (in_dict (some v) raw ∷ fs)
put v _ = none

unfoldable pub is_named : Text → Fields → Bool
is_named name no_fields = false
is_named name (field n v rest) = equal n name || is_named name rest

put_text : Option Text → List Frame → Frames
unfolding put
put_text none fs = none
put_text (some t) fs = put (text t) fs

put_field : Option Text → Json → Fields → List Frame → Frames
unfolding is_named
put_field none v raw fs = none
put_field (some k) v raw fs =
    if is_named k raw then none else some (in_dict none (field k v raw) ∷ fs)

-- Between elements there is nothing but white space.
abbrev pub blank_then : Text → Frames → Frames
blank_then c next = if is_blank c then next else none

-- A tag and what stands behind it, before the frames.
unfoldable pub step : Tag → Text → List Frame → Frames
unfolding put put_text put_field is_number
step close_plist c [] = blank_then c (some (in_plist none ∷ []))
step close_dict c fs = blank_then c (some (in_dict none no_fields ∷ fs))
step close_array c fs = blank_then c (some (in_array no_elements ∷ fs))
step close_key c fs = blank_then c (some (in_key ∷ fs))
step close_string c fs = blank_then c (some (in_string ∷ fs))
step close_integer c fs = blank_then c (some (in_integer ∷ fs))
step true_tag c fs = blank_then c (put (flag true) fs)
step open_string c (in_string ∷ fs) = put_text (content 0 c) fs
step open_integer c (in_integer ∷ fs) = if is_number c then put other fs else none
step open_key c (in_key ∷ in_dict (some v) raw ∷ fs) = put_field (content 0 c) v raw fs
step open_dict c (in_dict none raw ∷ fs) = blank_then c (put (object raw) fs)
step open_array c (in_array vs ∷ fs) = blank_then c (put (array vs) fs)
step open_plist c (in_plist (some (object raw)) ∷ []) = blank_then c (some (whole raw ∷ []))
step doctype c (whole raw ∷ []) = blank_then c (some (typed raw ∷ []))
step declaration c (typed raw ∷ []) = blank_then c (some (declared raw ∷ []))
step _ _ _ = none

step_named : Option Tag → Text → List Frame → Frames
unfolding step
step_named none c fs = none
step_named (some t) c fs = step t c fs

step_chunk : Option (Text × Text) → List Frame → Frames
unfolding step_named tag_of
step_chunk none fs = none
step_chunk (some (name, c)) fs = step_named (tag_of name) c fs

before : Option (Text × Text) → Frames → Frames
unfolding step_chunk
before u none = none
before u (some fs) = step_chunk u fs

unfoldable pub frames : List Text → Frames
unfolding before cut_tag
frames [] = some []
frames (u ∷ us) = before (cut_tag u) (frames us)

finished_fields : Frames → Option Fields
finished_fields (some (declared raw ∷ [])) = some raw
finished_fields _ = none

-- The dictionary of a property list in XML.
unfoldable pub read_document : Text → Option Fields
unfolding chunks frames finished_fields
read_document t = let (u, us) = chunks t in if is_empty u then finished_fields (frames us) else none

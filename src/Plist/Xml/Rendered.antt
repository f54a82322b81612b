-- ===== src/Plist/Xml/Rendered.antt =====
-- What `renderPlist` of plist_darwin.go writes, as a property list in XML.
use touchid_agent.Prelude.{
  ℕ, true, List, [], ◌∷◌, ◌++◌, append_assoc, none, some, ◌≡◌, refl, All, arith, append-nil,
}
use touchid_agent.Text.{Text, codes, equal, has_prefix, is_empty}
use touchid_agent.Plist.{
  Json, text, array, object, other, Elements, no_elements, element, Fields, no_fields, field,
  plist_label, plist_sockets_key,
}
use touchid_agent.Plist.Render.{
  xml_escape, line, string_entry, arg_entries, joined_lines, opening, to_socket, to_error_path,
  to_out_path, closing, render_plist,
}
use touchid_agent.Plist.Xml.{
  chunks, cut_tag, is_blank, content, frames, Frame, in_plist, in_array, in_dict, put, step,
  read_document, before, onto_first, step_chunk, step_named, tag_of, put_text, put_field, is_named,
  is_number, finished_fields,
}
use touchid_agent.Plist.Xml.Texts.{IsPlainText, content-xml_escape, chunks-xml_escape}

unfoldable pub array_of : List Text → Elements
array_of [] = no_elements
array_of (t ∷ ts) = element (text t) (array_of ts)

-- The fields that `renderPlist` writes.
unfoldable pub rendered_fields : Text → Text → Text → List Text → Fields
unfolding array_of
rendered_fields binary socket log_path extra = field (codes "Label") (text plist_label) (
    field (codes "ProgramArguments")
      (array (element (text binary) (element (text (codes "-launchd")) (array_of extra))))
      (field (codes "Sockets")
        (object (
          field plist_sockets_key
            (object (
              field (codes "SockFamily") (text (codes "Unix")) (
                field (codes "SockPathName") (text socket)
                  (field (codes "SockPathMode") other no_fields))))
            no_fields))
        (field (codes "ProcessType") (text (codes "Background")) (
          field (codes "StandardErrorPath") (text log_path)
            (field (codes "StandardOutPath") (text log_path) no_fields)))))

entry_rest :
    (t s : Text)
    → chunks (((xml_escape t ++ codes "</string>") ++ b'\n' ∷ []) ++ s)
      ≡ (xml_escape t, (codes "/string>\n" ++ (chunks s).0) ∷ (chunks s).1)
entry_rest t s =
    rw
      (
        append_assoc (xml_escape t) (codes "</string>") (b'\n' ∷ []),
        append_assoc (xml_escape t) (codes "</string>\n") s,
        chunks-xml_escape t (codes "</string>\n" ++ s),
      )
      (unfold chunks in rw (append-nil {A = ℕ}) refl)

-- What is read from a text on: what stands before its first tag is white space, and behind that are
-- these frames.
abbrev Reads : Text → List Frame → Type 0
Reads s fs = (is_blank (chunks s).0 ≡ true) × (frames (chunks s).1 ≡ some fs)

abbrev body : Text → Text → Text
body t s = ((codes "<string>" ++ (xml_escape t ++ codes "</string>")) ++ b'\n' ∷ []) ++ s

body-Reads :
    (t s : Text) (fs gs : List Frame)
    → IsPlainText t
    → Reads s fs
    → put (text t) fs ≡ some gs
    → Reads (body t s) gs
unfolding chunks is_blank frames before cut_tag onto_first step_chunk step_named tag_of step
    put_text has_prefix equal
body-Reads t s fs gs plain (blank, known) h =
    (refl, rw (entry_rest t s, known, blank, content-xml_escape t plain) h)

space-Reads : (s : Text) (fs : List Frame) → Reads s fs → Reads (b' ' ∷ s) fs
unfolding chunks is_blank
space-Reads s fs h = h

two_spaces-Reads : (s : Text) (fs : List Frame) → Reads s fs → Reads (codes "  " ++ s) fs
two_spaces-Reads s fs h = space-Reads (b' ' ∷ s) fs (space-Reads s fs h)

arg_entries-Reads :
    (ts : List Text) (s : Text) (fs : List Frame)
    → All IsPlainText ts
    → Reads s (in_array no_elements ∷ fs)
    → Reads (arg_entries ts ++ s) (in_array (array_of ts) ∷ fs)
unfolding arg_entries array_of
arg_entries-Reads [] s fs plain h = h
arg_entries-Reads (t ∷ ts) s fs (p, plain) h =
    rw (append_assoc (string_entry (codes "    ") t) (arg_entries ts) s) (
      unfold string_entry line in
      two_spaces-Reads (codes "  " ++ body t (arg_entries ts ++ s)) _ (
        two_spaces-Reads (body t (arg_entries ts ++ s)) _ (
          body-Reads t (arg_entries ts ++ s) (in_array (array_of ts) ∷ fs)
            (in_array (element (text t) (array_of ts)) ∷ fs) p (arg_entries-Reads ts s fs plain h)
            (unfold put in refl))))

closing-Reads : Reads (joined_lines closing) (in_dict none no_fields ∷ in_plist none ∷ [])
unfolding joined_lines line chunks is_blank frames before cut_tag onto_first step_chunk step_named
    tag_of step has_prefix equal
closing-Reads = (refl, refl)

abbrev out_field : Text → Fields
out_field log_path = field (codes "StandardOutPath") (text log_path) no_fields

abbrev log_fields : Text → Fields
log_fields log_path =
    field (codes "ProcessType") (text (codes "Background"))
      (field (codes "StandardErrorPath") (text log_path) (out_field log_path))

abbrev mode_field : Fields
mode_field = field (codes "SockPathMode") other no_fields

abbrev socket_fields : Text → Text → Fields
socket_fields socket log_path =
    field (codes "Sockets")
      (object (
        field plist_sockets_key
          (object (
            field (codes "SockFamily") (text (codes "Unix"))
              (field (codes "SockPathName") (text socket) mode_field)))
          no_fields))
      (log_fields log_path)

to_out_path-Reads :
    (s log_path : Text) (fs : List Frame)
    → Reads s (in_dict (some (text log_path)) no_fields ∷ fs)
    → Reads (joined_lines to_out_path ++ s) (in_dict none (out_field log_path) ∷ fs)
unfolding joined_lines line chunks is_blank frames before cut_tag onto_first step_chunk step_named
    tag_of step put_field is_named content has_prefix equal
to_out_path-Reads s log_path fs (blank, known) = (refl, rw (known, blank) refl)

to_error_path-Reads :
    (s log_path : Text) (fs : List Frame)
    → Reads s (in_dict (some (text log_path)) (out_field log_path) ∷ fs)
    → Reads
        (joined_lines to_error_path ++ s)
        (in_dict none mode_field ∷ in_dict none no_fields ∷ in_dict none (log_fields log_path) ∷ fs)
unfolding joined_lines line chunks is_blank frames before cut_tag onto_first step_chunk step_named
    tag_of step put put_text put_field is_named is_number is_empty content has_prefix equal
to_error_path-Reads s log_path fs (blank, known) = (refl, rw (known, blank) refl)

to_socket-Reads :
    (s socket log_path : Text) (fs : List Frame)
    → Reads s (
        in_dict (some (text socket)) mode_field
        ∷ in_dict none no_fields
        ∷ in_dict none (log_fields log_path)
        ∷ fs)
    → Reads
        (joined_lines to_socket ++ s)
        (in_array no_elements ∷ in_dict none (socket_fields socket log_path) ∷ fs)
unfolding joined_lines line chunks is_blank frames before cut_tag onto_first step_chunk step_named
    tag_of step put put_text put_field is_named content has_prefix equal
to_socket-Reads s socket log_path fs (blank, known) = (refl, rw (known, blank) refl)

opening-read :
    (s socket log_path : Text) (vs : Elements)
    → Reads s (in_array vs ∷ in_dict none (socket_fields socket log_path) ∷ in_plist none ∷ [])
    → read_document (joined_lines opening ++ s)
      ≡ some (
          field
            (codes "Label")
            (text plist_label)
            (field (codes "ProgramArguments") (array vs) (socket_fields socket log_path)))
unfolding joined_lines line chunks is_blank frames before cut_tag onto_first step_chunk step_named
    tag_of step put put_text put_field is_named content has_prefix equal read_document
    finished_fields is_empty
opening-read s socket log_path vs (blank, known) = rw (known, blank) refl

put-in_dict :
    {v : Json} {raw : Fields} {fs : List Frame}
    → put v (in_dict none raw ∷ fs) ≡ some (in_dict (some v) raw ∷ fs)
unfolding put
put-in_dict = refl

-- Where its texts are of characters that XML allows as they are, what `renderPlist` writes is a property
-- list in XML, with the fields of the template.
pub read_document-render_plist :
    (binary socket log_path : Text) (extra : List Text)
    → All IsPlainText (binary ∷ socket ∷ log_path ∷ extra)
    → read_document (render_plist binary socket log_path extra)
      ≡ some (rendered_fields binary socket log_path extra)
unfolding render_plist rendered_fields string_entry line
read_document-render_plist binary socket log_path extra (b, (s, (l, e))) =
    let launchd : IsPlainText (codes "-launchd") = ground arith in
    let last = body log_path (joined_lines closing) in
    let errors = joined_lines to_out_path ++ (codes "  " ++ last) in
    let mode = joined_lines to_error_path ++ (codes "  " ++ body log_path errors) in
    let sockets = joined_lines to_socket ++ (codes "      " ++ body socket mode) in
    opening-read (arg_entries (binary ∷ codes "-launchd" ∷ extra) ++ sockets) socket log_path _ (
      arg_entries-Reads (binary ∷ codes "-launchd" ∷ extra) sockets _ (b, (launchd, e))
        (to_socket-Reads (codes "      " ++ body socket mode) socket log_path _ (
          two_spaces-Reads (codes "    " ++ body socket mode) _ (
            two_spaces-Reads (codes "  " ++ body socket mode) _ (
              two_spaces-Reads (body socket mode) _ (
                body-Reads socket mode _ _ s
                  (to_error_path-Reads (codes "  " ++ body log_path errors) log_path _ (
                    two_spaces-Reads (body log_path errors) _ (
                      body-Reads log_path errors _ _ l
                        (to_out_path-Reads (codes "  " ++ last) log_path _ (
                          two_spaces-Reads last _ (
                            body-Reads log_path (joined_lines closing) _ _ l closing-Reads
                              put-in_dict)))
                        put-in_dict)))
                  put-in_dict))))))

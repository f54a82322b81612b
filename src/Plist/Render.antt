-- ===== src/Plist/Render.antt =====
-- `renderPlist` and `xmlEscape`: the property list that is written, and its texts.
use touchid_agent.Prelude.{ℕ, List, [], ◌∷◌, ◌++◌, ◌==◌, if◌then◌else◌}
use touchid_agent.Text.{Text, codes}
use touchid_agent.Plist.{plist_label, plist_sockets_key}

unfoldable pub escaped_rune : ℕ → Text
escaped_rune c =
    if c == b'&'
    then codes "&amp;"
    else if c == b'<'
    then codes "&lt;"
    else if c == b'>'
    then codes "&gt;"
    else c ∷ []

unfoldable pub xml_escape : Text → Text
unfolding escaped_rune
xml_escape [] = []
xml_escape (c ∷ s) = escaped_rune c ++ xml_escape s

unfoldable pub line : Text → Text
line t = t ++ b'\n' ∷ []

unfoldable pub string_entry : Text → Text → Text
unfolding line
string_entry indent t = line (indent ++ (codes "<string>" ++ (xml_escape t ++ codes "</string>")))

unfoldable pub arg_entries : List Text → Text
unfolding string_entry
arg_entries [] = []
arg_entries (a ∷ rest) = string_entry (codes "    ") a ++ arg_entries rest

unfoldable pub joined_lines : List Text → Text
unfolding line
joined_lines [] = []
joined_lines (l ∷ ls) = line l ++ joined_lines ls

-- The lines of the template before, between and behind its texts.
abbrev pub opening : List Text
opening =
    codes "<?xml version=\"1.0\" encoding=\"UTF-8\"?>"
    ∷ codes
        "<!DOCTYPE plist PUBLIC \"-//Apple//DTD PLIST 1.0//EN\" \"http://www.apple.com/DTDs/PropertyList-1.0.dtd\">"
    ∷ codes "<plist version=\"1.0\">"
    ∷ codes "<dict>"
    ∷ codes "  <key>Label</key>"
    ∷ (codes "  <string>" ++ (plist_label ++ codes "</string>"))
    ∷ codes "  <key>ProgramArguments</key>"
    ∷ codes "  <array>"
    ∷ []

abbrev pub to_socket : List Text
to_socket =
    codes "  </array>"
    ∷ codes "  <key>Sockets</key>"
    ∷ codes "  <dict>"
    ∷ (codes "    <key>" ++ (plist_sockets_key ++ codes "</key>"))
    ∷ codes "    <dict>"
    ∷ codes "      <key>SockFamily</key>"
    ∷ codes "      <string>Unix</string>"
    ∷ codes "      <key>SockPathName</key>"
    ∷ []

abbrev pub to_error_path : List Text
to_error_path =
    codes "      <key>SockPathMode</key>"
    ∷ codes "      <integer>384</integer>"
    ∷ codes "    </dict>"
    ∷ codes "  </dict>"
    ∷ codes "  <key>ProcessType</key>"
    ∷ codes "  <string>Background</string>"
    ∷ codes "  <key>StandardErrorPath</key>"
    ∷ []

abbrev pub to_out_path : List Text
to_out_path = codes "  <key>StandardOutPath</key>" ∷ []

abbrev pub closing : List Text
closing = codes "</dict>" ∷ codes "</plist>" ∷ []

unfoldable pub render_plist : Text → Text → Text → List Text → Text
unfolding arg_entries joined_lines string_entry
render_plist binary socket log_path extra =
    joined_lines opening
    ++ (arg_entries (binary ∷ codes "-launchd" ∷ extra)
        ++ (joined_lines to_socket
            ++ (string_entry (codes "      ") socket
                ++ (joined_lines to_error_path
                    ++ (string_entry (codes "  ") log_path
                        ++ (joined_lines to_out_path
                            ++ (string_entry (codes "  ") log_path ++ joined_lines closing)))))))

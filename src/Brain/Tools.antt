-- ===== src/Brain/Tools.antt =====
-- The tools that the models are offered: `_CUSTOM_TOOLS` of `src/agent/brain/claude.py` and `_TOOLS` of
-- `src/agent/brain/openai_brain.py`, by their names and the schemas of their input. The descriptions,
-- which are texts for the model, are left out.
use hyprland_agent.Prelude.{Text, codes, Bool, true, ◌&&◌, List, [], ◌∷◌, text_key, contains}
use hyprland_agent.Schemas.{Params}

pub data JsonType : Type 0 where
  string integer number boolean : JsonType

pub record Tool : Type 0 where
  pub name : Text
  pub properties : List (Text × JsonType)
  pub required : List Text

abbrev address : Text × JsonType
address = (codes "address", JsonType.string)

abbrev path : Text × JsonType
path = (codes "path", JsonType.string)

abbrev command_tool : Tool
command_tool = record {
  name = codes "terminal_command";
  properties = (codes "command", JsonType.string) ∷ (codes "hold_s", JsonType.number) ∷ [];
  required = codes "command" ∷ [];
}

-- A tool with one property, which is required, of type string.
abbrev text_tool : Text → Text → Tool
text_tool tool key = record {
  name = tool;
  properties = (key, JsonType.string) ∷ [];
  required = key ∷ [];
}

abbrev bare_tool : Text → Tool
bare_tool tool = record { name = tool; properties = []; required = [] }

abbrev read_file_tool : Tool
read_file_tool = record {
  name = codes "read_file";
  properties = path ∷ (codes "offset", JsonType.integer) ∷ (codes "limit", JsonType.integer) ∷ [];
  required = codes "path" ∷ [];
}

abbrev write_file_tool : Tool
write_file_tool = record {
  name = codes "write_file";
  properties = path ∷ (codes "content", JsonType.string) ∷ (codes "append", JsonType.boolean) ∷ [];
  required = codes "path" ∷ codes "content" ∷ [];
}

abbrev list_dir_tool : Tool
list_dir_tool = record {
  name = codes "list_dir";
  properties = path ∷ (codes "recursive", JsonType.boolean) ∷ [];
  required = codes "path" ∷ [];
}

abbrev pub custom_tools : List Tool
custom_tools =
    bare_tool (codes "list_windows")
    ∷ command_tool
    ∷ text_tool (codes "focus_window") (codes "address")
    ∷ text_tool (codes "dispatch_hypr") (codes "cmd")
    ∷ read_file_tool
    ∷ write_file_tool
    ∷ list_dir_tool
    ∷ bare_tool (codes "clipboard_read")
    ∷ text_tool (codes "clipboard_write") (codes "text")
    ∷ []

abbrev point : List (Text × JsonType)
point = (codes "x", JsonType.integer) ∷ (codes "y", JsonType.integer) ∷ []

abbrev point_tool : Text → Tool
point_tool tool = record { name = tool; properties = point; required = codes "x" ∷ codes "y" ∷ [] }

abbrev scroll_tool : Tool
scroll_tool = record {
  name = codes "scroll";
  properties =
      (codes "x", JsonType.integer)
      ∷ (codes "y", JsonType.integer)
      ∷ (codes "direction", JsonType.string)
      ∷ (codes "amount", JsonType.integer)
      ∷ [];
  required = codes "x" ∷ codes "y" ∷ [];
}

abbrev pub tools : List Tool
tools =
    bare_tool (codes "screenshot")
    ∷ point_tool (codes "left_click")
    ∷ point_tool (codes "right_click")
    ∷ point_tool (codes "middle_click")
    ∷ point_tool (codes "double_click")
    ∷ scroll_tool
    ∷ text_tool (codes "type_text") (codes "text")
    ∷ text_tool (codes "key") (codes "combo")
    ∷ command_tool
    ∷ text_tool (codes "focus_window") (codes "address")
    ∷ bare_tool (codes "list_windows")
    ∷ text_tool (codes "dispatch_hypr") (codes "cmd")
    ∷ read_file_tool
    ∷ write_file_tool
    ∷ list_dir_tool
    ∷ bare_tool (codes "clipboard_read")
    ∷ text_tool (codes "clipboard_write") (codes "text")
    ∷ []

-- The input has the keys that the schema requires.
abbrev pub has_required : List Text → Params → Bool
has_required [] inp = true
has_required (key ∷ keys) inp = contains key inp && has_required keys inp

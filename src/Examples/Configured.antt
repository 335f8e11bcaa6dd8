-- ===== src/Examples/Configured.antt =====
-- Examples of the configuration.
use dgnss_server.Common.{ℕ, ◌≡◌, refl, arith, some, true, List, [], ◌∷◌, if◌then◌else◌}
use dgnss_server.Common.Int.{pos, negsuc}
use dgnss_server.Comn.IniFile.{new_ini_file, load, load_text, save, find_first, first_visible}
use dgnss_server.Comn.IniFile.Loaded.{IsStorable, unlines}
use dgnss_server.Comn.IniFile.RoundTrip.{load-save-load}
use dgnss_server.Comn.IniFile.Names.{
  IniCall, set_value_call, remove_key_call, insert_section_call, AreSections, calls,
  calls-AreSections,
}
use dgnss_server.Config.{
  AppConfig, get_string, get_int, set_string, set_int, read_word, reload, save_config, split_path,
  split_at,
}
use dgnss_server.Config.Words.{same_path}
use dgnss_server.Config.Numbers.{get_int-set_int}
use dgnss_server.Config.Stored.{IsPath, get_string-reload}

-- "# x", "[A]", "k=1"
abbrev sample_text : List ℕ
sample_text =
    b'#' ∷ b' ' ∷ b'x' ∷ b'\n' ∷ b'[' ∷ b'A' ∷ b']' ∷ b'\n' ∷ b'k' ∷ b'=' ∷ b'1' ∷ b'\n' ∷ []

load-save-load_example :
    load (some (save (load_text sample_text))) new_ini_file ≡ (load_text sample_text, true)
load-save-load_example = load-save-load sample_text new_ini_file

abbrev key_k : List ℕ
key_k = b'k' ∷ []

abbrev some_calls : List IniCall
some_calls =
    set_value_call key_k key_k (b'1' ∷ [])
    ∷ insert_section_call (b'A' ∷ [])
    ∷ remove_key_call key_k key_k
    ∷ []

calls-AreSections_example : AreSections (calls some_calls new_ini_file).sections
calls-AreSections_example = calls-AreSections some_calls new_ini_file tt

abbrev fresh_config : AppConfig
fresh_config = record { filename = []; ini_file = new_ini_file }

fresh-IsStorable : IsStorable new_ini_file
fresh-IsStorable = record { header = ([], unfold unlines in refl, tt); sections = tt }

-- "Server.IP"
abbrev server_ip : List ℕ
server_ip = b'S' ∷ b'.' ∷ b'I' ∷ b'P' ∷ []

server_ip-IsPath : IsPath server_ip
unfolding split_path split_at first_visible find_first
server_ip-IsPath = omega arith

-- The value "a b", of which the first word is read.
abbrev two_words : List ℕ
two_words = b'a' ∷ b' ' ∷ b'b' ∷ []

get_string-reload_example :
    get_string server_ip []
      (reload (some (save_config (set_string server_ip two_words fresh_config))) fresh_config).0
    ≡ (if same_path server_ip server_ip
        then read_word two_words []
        else get_string server_ip [] fresh_config)
get_string-reload_example =
    get_string-reload server_ip two_words server_ip [] fresh_config fresh_config fresh-IsStorable
      server_ip-IsPath (omega arith)

get_int-set_int_example :
    get_int server_ip (pos 3010) (set_int server_ip (negsuc 4006) fresh_config) ≡ negsuc 4006
get_int-set_int_example =
    get_int-set_int server_ip (negsuc 4006) (pos 3010) fresh_config (omega arith)

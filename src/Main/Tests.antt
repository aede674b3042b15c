-- ===== src/Main/Tests.antt =====
-- A configuration of five lines.
use byron0416_mp.Main.{
  Settings, no_settings, read_config, params, take_params, take_param, set_media, set_live_path,
  set_level, with_slash, add_path, last_byte, read_int, times_10000,
}
use byron0416_mp.Main.Config.{HasDirectories, read_config-HasDirectories}
use byron0416_mp.Main.Entries.{Entry, comment, media_dir, live_dir, live_ip, log_level}
use byron0416_mp.Prelude.{◌≡◌, refl, false, List, [], ◌∷◌, ◌++◌, none, some}
use byron0416_mp.Text.{Text, text, find_text, starts_with, lines_of, c_prefix}
use byron0416_mp.Text.Numbers.{skip_space, read_digits}

abbrev config : Text
config =
    text "# paths"
    ++ (10
        ∷ (text "media_dir=/a"
            ++ (10
                ∷ (text "live_dir=/b/"
                    ++ (10 ∷ (text "live_ip=1.2.3.4" ++ (10 ∷ text "log_level=2")))))))

abbrev configured : Settings
configured = record {
  media = text "/a/" ∷ [];
  live_path = text "/b/";
  live_ip = text "1.2.3.4";
  level = some (false, 20000);
}

read_config-configured : read_config (some config) no_settings ≡ some configured
unfolding read_config params take_params take_param set_media set_live_path set_level with_slash
    add_path last_byte read_int times_10000 find_text starts_with lines_of c_prefix skip_space
    read_digits
read_config-configured = refl

read_config-HasDirectories_example : HasDirectories configured
read_config-HasDirectories_example =
    read_config-HasDirectories (some config) configured read_config-configured

abbrev entries : List Entry
entries =
    comment (text " paths")
    ∷ media_dir (text "/a")
    ∷ live_dir (text "/b/")
    ∷ live_ip (text "1.2.3.4")
    ∷ log_level 2
    ∷ []

-- An empty directory is one whose last byte is asked for.
empty_directory-undefined : read_config (some (text "media_dir=")) no_settings ≡ none
unfolding read_config params take_params take_param set_media with_slash last_byte find_text
    starts_with lines_of c_prefix
empty_directory-undefined = refl

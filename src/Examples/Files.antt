-- ===== src/Examples/Files.antt =====
-- The theorem on the check of files in modules/plugin_system/loader.py at a folder with one file that
-- is recorded and one that is left out.
use humanoid_agi_plugin_syst.Prelude.{List, [], ◌∷◌, refl}
use humanoid_agi_plugin_syst.Prelude.Dict
use humanoid_agi_plugin_syst.Prelude.Text.{ends_with}
use humanoid_agi_plugin_syst.Models.{num, str, obj, Fields, end, field, field?, value_eq}
use humanoid_agi_plugin_syst.Loader.Integrity.{
  StoredFile, file_value, build_file_integrity, integrity_path_excluded, add_files, has_missing,
  has_extra, has_changed, compare_files, check_files, check_manifest, verify_integrity,
}
use humanoid_agi_plugin_syst.Loader.Intact.{Agree, recorded_files, verify_integrity-Agree}

abbrev main_file : StoredFile
main_file = record { path = "main.py"; parts = "main.py" ∷ []; sha256 = "h"; size = 7 }

abbrev cached_file : StoredFile
cached_file = record { path = "main.pyc"; parts = "main.pyc" ∷ []; sha256 = "c"; size = 9 }

abbrev two_files : List StoredFile
two_files = main_file ∷ cached_file ∷ []

abbrev manifest : Fields
manifest =
    field "file_integrity"
      (obj (
        field "version" (num 1) (
          field "algorithm" (str "sha256")
            (field "files" (obj (field "main.py" (file_value main_file) end)) end))))
      end

verify_integrity-Agree_example :
    Agree
      (field? (recorded_files manifest) "main.py")
      (Dict.get (build_file_integrity two_files) "main.py")
unfolding verify_integrity check_manifest check_files compare_files build_file_integrity add_files
    integrity_path_excluded has_missing has_extra has_changed value_eq Dict.get Dict.put ends_with
verify_integrity-Agree_example = verify_integrity-Agree manifest two_files "main.py" refl

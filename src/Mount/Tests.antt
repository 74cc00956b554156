-- ===== src/Mount/Tests.antt =====
-- The mount table and the hidden names on concrete paths.
use toda.Base.{if◌then◌else◌, ◌≡◌, ◌↔◌, refl, true, [], ◌∷◌, ◌++◌}
use toda.FilePath.{FilePath, Name, root_dir, normal, utf8}
use toda.FilePath.Names.{no_slash}
use toda.Mount.{MountsInfo, non_root}
use toda.Mount.Points.{OnMount, non_root-OnMount, non_root-root_dir}
use toda.Mount.Encode.{encoded, hidden_name, encode_path, encode_path-append, encode_path-injective}
use toda.FilePath.{
  path_beq, starts_with, strip_prefix, join, parse, parent, file_name, component_eq,
}
use toda.Task.{returns, ◌>>=◌, ◌>>◌, unwrapped}
use toda.Task.Steps.{Returns}
use toda.Hookfs.Os.Sample.{sample_platform}
use toda.Mount.System.{Table, directory, called}
use toda.Mount.System.Sample.{sample, sample_laws}
use toda.Mount.Injector.{
  MountInjector, create_injection, created, mount, recover_mount, parse_mounts, move_mount,
  bind_mount, spawn,
}
use toda.Mount.Recovered.{mount-recover_mount}

abbrev data_name : Name
data_name = b'd' ∷ b'b' ∷ []

abbrev var : FilePath
var = root_dir ∷ normal (b'v' ∷ []) ∷ []

abbrev table : MountsInfo
table = record { mounts = var ∷ (root_dir ∷ []) ∷ [] }

non_root-OnMount_example :
    (non_root table (var ++ normal data_name ∷ []) ≡ true)
    ↔ OnMount table.mounts (var ++ normal data_name ∷ [])
non_root-OnMount_example = non_root-OnMount table (var ++ normal data_name ∷ [])

non_root-root_dir_example : non_root table (root_dir ∷ normal data_name ∷ []) ≡ true
non_root-root_dir_example = non_root-root_dir (var ∷ []) [] (normal data_name ∷ [])

encode_path-append_example :
    encode_path (var ++ normal data_name ∷ [])
    ≡ encoded (var ++ normal data_name ∷ []) (var ++ normal (hidden_name data_name) ∷ [])
unfolding no_slash utf8
encode_path-append_example = encode_path-append var data_name refl refl

hides_data :
    encode_path (var ++ normal data_name ∷ [])
    ≡ encoded (var ++ normal data_name ∷ []) (var ++ normal (hidden_name data_name) ∷ [])
unfolding utf8 no_slash
hides_data = encode_path-append var data_name refl refl

encode_path-injective_example : var ++ normal data_name ∷ [] ≡ var ++ normal data_name ∷ []
unfolding no_slash utf8
encode_path-injective_example =
    encode_path-injective var var data_name data_name (var ++ normal (hidden_name data_name) ∷ [])
      refl refl refl refl hides_data hides_data

abbrev db : FilePath
db = root_dir ∷ normal data_name ∷ []

abbrev hidden_db : FilePath
hidden_db = root_dir ∷ normal (hidden_name data_name) ∷ []

-- The directory is mounted on itself.
abbrev start : Table
start q = if path_beq q db then directory db ∷ [] else []

abbrev injector : MountInjector
injector = record { original_path = db; new_path = hidden_db; injector_config = [] }

create_injection_test : create_injection db [] ≡ created injector
unfolding create_injection utf8 join parse parent file_name
create_injection_test = refl

session_test :
    ((mount sample sample_platform injector >>= recover_mount sample sample_platform) start).0
    ≡ returns tt
unfolding ◌>>=◌ ◌>>◌ mount recover_mount parse_mounts move_mount bind_mount spawn called unwrapped
    non_root starts_with strip_prefix
session_test = refl

mount-recover_mount_example :
    Returns
      (λ u t. t ≡ start)
      ((mount sample sample_platform injector >>= recover_mount sample sample_platform) start)
mount-recover_mount_example =
    mount-recover_mount sample sample_laws sample_platform injector (directory db) [] start refl
      refl refl

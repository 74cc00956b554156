-- ===== src/Injector/Method.antt =====
-- `bitflags! struct Method` and `TryFrom<&str> for Method` of src/injector/filter.rs.
use Prim.Native.String.{String}
use Prim.Native.Char.{code}
use toda.Base.{
  ℕ, ◌+◌, ◌-◌, ◌^◌, Option, none, some, List, [], ◌∷◌, ◌++◌, ltb, leb, ◌&&◌, nat_eq, list_beq,
  if◌then◌else◌,
}
use mathlib.Core.Option
use toda.External.{External}
use toda.Injector.Config.{Text}

abbrev pub codes : String → Text
codes String.[] = []
codes (String.◌∷◌ c s) = code c ∷ codes s

-- A set of methods: the method of shift `k` is the flag 2 ^ k.
abbrev pub Method : Type 0
Method = ℕ

abbrev pub lookup : Method
lookup = 2 ^ 0

abbrev pub forget : Method
forget = 2 ^ 1

abbrev pub getattr : Method
getattr = 2 ^ 2

abbrev pub setattr : Method
setattr = 2 ^ 3

abbrev pub readlink : Method
readlink = 2 ^ 4

abbrev pub mknod : Method
mknod = 2 ^ 5

abbrev pub mkdir : Method
mkdir = 2 ^ 6

abbrev pub unlink : Method
unlink = 2 ^ 7

abbrev pub rmdir : Method
rmdir = 2 ^ 8

abbrev pub symlink : Method
symlink = 2 ^ 9

abbrev pub rename : Method
rename = 2 ^ 10

abbrev pub link : Method
link = 2 ^ 11

abbrev pub open_file : Method
open_file = 2 ^ 12

abbrev pub read : Method
read = 2 ^ 13

abbrev pub write : Method
write = 2 ^ 14

abbrev pub flush : Method
flush = 2 ^ 15

abbrev pub release : Method
release = 2 ^ 16

abbrev pub fsync : Method
fsync = 2 ^ 17

abbrev pub opendir : Method
opendir = 2 ^ 18

abbrev pub readdir : Method
readdir = 2 ^ 19

abbrev pub releasedir : Method
releasedir = 2 ^ 20

abbrev pub fsyncdir : Method
fsyncdir = 2 ^ 21

abbrev pub statfs : Method
statfs = 2 ^ 22

abbrev pub setxattr : Method
setxattr = 2 ^ 23

abbrev pub getxattr : Method
getxattr = 2 ^ 24

abbrev pub listxattr : Method
listxattr = 2 ^ 25

abbrev pub removexattr : Method
removexattr = 2 ^ 26

abbrev pub access : Method
access = 2 ^ 27

abbrev pub create : Method
create = 2 ^ 28

abbrev pub getlk : Method
getlk = 2 ^ 29

abbrev pub setlk : Method
setlk = 2 ^ 30

abbrev pub bmap : Method
bmap = 2 ^ 31

abbrev pub no_methods : Method
no_methods = 0

-- `Method::all()`
abbrev pub all_methods : Method
all_methods = 2 ^ 32 - 1

-- The names that `try_from` matches, with the shift of the flag.
unfoldable pub names : List (Text × ℕ)
names =
    (codes "lookup", 0)
    ∷ (codes "forget", 1)
    ∷ (codes "getattr", 2)
    ∷ (codes "setattr", 3)
    ∷ (codes "readlink", 4)
    ∷ (codes "mknod", 5)
    ∷ (codes "mkdir", 6)
    ∷ (codes "unlink", 7)
    ∷ (codes "rmdir", 8)
    ∷ (codes "symlink", 9)
    ∷ (codes "rename", 10)
    ∷ (codes "link", 11)
    ∷ (codes "open", 12)
    ∷ (codes "read", 13)
    ∷ (codes "write", 14)
    ∷ (codes "flush", 15)
    ∷ (codes "release", 16)
    ∷ (codes "fsync", 17)
    ∷ (codes "opendir", 18)
    ∷ (codes "readdir", 19)
    ∷ (codes "releasedir", 20)
    ∷ (codes "fsyncdir", 21)
    ∷ (codes "statfs", 22)
    ∷ (codes "setxattr", 23)
    ∷ (codes "getxattr", 24)
    ∷ (codes "listxattr", 25)
    ∷ (codes "removexattr", 26)
    ∷ (codes "access", 27)
    ∷ (codes "create", 28)
    ∷ (codes "getlk", 29)
    ∷ (codes "setlk", 30)
    ∷ (codes "bmap", 31)
    ∷ []

lower_code : (x : External) → ℕ → Text
lower_code x c =
    if leb b'A' c && leb c b'Z'
    then (c + 32) ∷ []
    else (if ltb c 128 then c ∷ [] else x.lowercase c)

-- `str::to_lowercase`
unfoldable pub to_lowercase : (x : External) → Text → Text
unfolding lower_code
to_lowercase x [] = []
to_lowercase x (c ∷ s) = lower_code x c ++ to_lowercase x s

unfoldable pub shift_in : List (Text × ℕ) → Text → Option ℕ
shift_in [] s = none
shift_in ((n, k) ∷ rest) s = if list_beq s n then some k else shift_in rest s

-- The shift of the method that a name stands for.
unfoldable pub shift_of : (x : External) → Text → Option ℕ
unfolding names to_lowercase shift_in
shift_of x s = shift_in names (to_lowercase x s)

-- `Method::try_from(s).ok()`
unfoldable pub try_from : (x : External) → Text → Option Method
try_from x s = Option.map (λ k. 2 ^ k) (shift_of x s)

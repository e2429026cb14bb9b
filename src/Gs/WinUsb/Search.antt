-- ===== src/Gs/WinUsb/Search.antt =====
-- `device_path` of src/rphand/backends/gs_usb_winusb.cpp. A path is the list of its characters; what
-- Windows lists for an interface is a parameter, and so is `towlower`.
pub mod Laws
use Prim.Native.String.{String}
use roboparty_dexhand.Base.{
  ℕ, Bool, true, false, not, ◌||◌, ◌&&◌, Option, none, some, List, [], ◌∷◌, ◌++◌, ◌==◌, map, any,
  if◌then◌else◌, is_empty, codes, is_hex,
}

-- The characters of the pattern stand at the front.
unfoldable pub starts_with : List ℕ → List ℕ → Bool
starts_with [] text = true
starts_with (p ∷ ps) [] = false
starts_with (p ∷ ps) (c ∷ cs) = (p == c) && starts_with ps cs

-- `text.find(pattern) != npos`.
unfoldable pub finds : List ℕ → List ℕ → Bool
finds ps [] = starts_with ps []
finds ps (c ∷ cs) = starts_with ps (c ∷ cs) || finds ps cs

abbrev pub is_bad_serial : String → Bool
is_bad_serial serial = is_empty serial || any (λ c. not (is_hex c)) (codes serial)

abbrev pub no_text : List ℕ → Bool
no_text [] = true
no_text _ = false

module _ (towlower : ℕ → ℕ) where
  abbrev pub needle : String → List ℕ
  needle serial = map towlower (codes "usb#vid_a8fa&pid_8598#" ++ (codes serial ++ b'#' ∷ []))

  -- The loop over the devices of an interface; `none` is one whose details cannot be read.
  unfoldable pub search : List ℕ → List (Option (List ℕ)) → List ℕ
  search wanted [] = []
  search wanted (none ∷ devices) = search wanted devices
  search wanted (some path ∷ devices) =
      if finds wanted (map towlower path) then path else search wanted devices

  -- The loop over the interfaces; `none` is one whose devices cannot be listed.
  unfoldable pub search_all : List ℕ → List (Option (List (Option (List ℕ)))) → List ℕ
  search_all wanted [] = []
  search_all wanted (none ∷ interfaces) = search_all wanted interfaces
  search_all wanted (some devices ∷ interfaces) =
      let found = search wanted devices in
      if not (no_text found) then found else search_all wanted interfaces

  unfoldable pub device_path : String → List (Option (List (Option (List ℕ)))) → List ℕ
  device_path serial interfaces =
      if is_bad_serial serial then [] else search_all (needle serial) interfaces

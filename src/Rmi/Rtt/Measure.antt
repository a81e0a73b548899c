-- ===== src/Rmi/Rtt/Measure.antt =====
-- runtime/rmi/rtt.c: the initial measurement of a realm grows by descriptors of what it is given. A
-- descriptor is the list of its members; a digest is a number.
use acai_rmm.Common.{ℕ, zero, suc, List, [], ◌∷◌, ◌==◌, if◌then◌else◌, update}
use acai_rmm.State.{Platform, Rd}

abbrev pub measure_desc_type_data : ℕ
measure_desc_type_data = 0

abbrev pub measure_desc_type_rec : ℕ
measure_desc_type_rec = 1

abbrev pub measure_desc_type_ripas : ℕ
measure_desc_type_ripas = 2

abbrev pub rmi_no_measure_content : ℕ
rmi_no_measure_content = 0

abbrev pub rmi_measure_content : ℕ
rmi_measure_content = 1

abbrev pub rim_measurement_slot : ℕ
rim_measurement_slot = 0

-- `sizeof` of each of the three descriptors.
abbrev pub measurement_desc_size : ℕ
measurement_desc_size = 0x100

-- The content of a page from word `i` on, `k` words long.
unfoldable pub page_words : ℕ → ℕ → (ℕ → ℕ) → List ℕ
page_words zero i content = []
page_words (suc k) i content = content i ∷ page_words k (suc i) content

-- The digest of a descriptor becomes the initial measurement.
unfoldable pub set_rim : Platform → Rd → List ℕ → Rd
set_rim plat d desc = record d {
  measurement = update d.measurement rim_measurement_slot (plat.hash d.algorithm desc);
}

unfoldable pub data_granule_measure : Platform → Rd → (ℕ → ℕ) → ℕ → ℕ → Rd
unfolding page_words set_rim
data_granule_measure plat d content ipa flags =
    let digest =
      if flags == rmi_measure_content
      then plat.hash d.algorithm (page_words 512 0 content)
      else 0 in
    set_rim plat d (
      measure_desc_type_data
      ∷ measurement_desc_size
      ∷ d.measurement rim_measurement_slot
      ∷ ipa
      ∷ flags
      ∷ digest
      ∷ [])

-- The member `level` is one byte wide; the levels that are measured fit it.
unfoldable pub ripas_granule_measure : Platform → Rd → ℕ → ℕ → Rd
unfolding set_rim
ripas_granule_measure plat d ipa level = set_rim plat d (
    measure_desc_type_ripas
    ∷ measurement_desc_size
    ∷ d.measurement rim_measurement_slot
    ∷ ipa
    ∷ level
    ∷ [])

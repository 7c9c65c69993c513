-- ===== src/Observer/Measures.antt =====
-- The values of a measure by their fields.
use lading.Prelude.{ℕ, ◌+◌, ◌≡◌, refl, Option, none}
use lading.Observer.Smaps.{
  Required, Optional, AggrMeasure, no_measure, aggregate_option, add_measure,
}

abbrev pub required : Required → AggrMeasure → ℕ
required Required.size m = m.size
required Required.pss m = m.pss
required Required.swap m = m.swap
required Required.rss m = m.rss

abbrev pub optional : Optional → AggrMeasure → Option ℕ
optional Optional.pss_dirty m = m.pss_dirty
optional Optional.shared_clean m = m.shared_clean
optional Optional.shared_dirty m = m.shared_dirty
optional Optional.private_clean m = m.private_clean
optional Optional.private_dirty m = m.private_dirty
optional Optional.referenced m = m.referenced
optional Optional.anonymous m = m.anonymous
optional Optional.lazy_free m = m.lazy_free
optional Optional.anon_huge_pages m = m.anon_huge_pages
optional Optional.shmem_pmd_mapped m = m.shmem_pmd_mapped
optional Optional.file_pmd_mapped m = m.file_pmd_mapped
optional Optional.shared_hugetlb m = m.shared_hugetlb
optional Optional.private_hugetlb m = m.private_hugetlb
optional Optional.swap_pss m = m.swap_pss
optional Optional.locked m = m.locked

pub required-add_measure :
    (k : Required) (a b : AggrMeasure) → required k (add_measure a b) ≡ required k a + required k b
unfolding add_measure
required-add_measure Required.size a b = refl
required-add_measure Required.pss a b = refl
required-add_measure Required.swap a b = refl
required-add_measure Required.rss a b = refl

pub optional-add_measure :
    (k : Optional) (a b : AggrMeasure)
    → optional k (add_measure a b) ≡ aggregate_option (optional k a) (optional k b)
unfolding add_measure
optional-add_measure Optional.pss_dirty a b = refl
optional-add_measure Optional.shared_clean a b = refl
optional-add_measure Optional.shared_dirty a b = refl
optional-add_measure Optional.private_clean a b = refl
optional-add_measure Optional.private_dirty a b = refl
optional-add_measure Optional.referenced a b = refl
optional-add_measure Optional.anonymous a b = refl
optional-add_measure Optional.lazy_free a b = refl
optional-add_measure Optional.anon_huge_pages a b = refl
optional-add_measure Optional.shmem_pmd_mapped a b = refl
optional-add_measure Optional.file_pmd_mapped a b = refl
optional-add_measure Optional.shared_hugetlb a b = refl
optional-add_measure Optional.private_hugetlb a b = refl
optional-add_measure Optional.swap_pss a b = refl
optional-add_measure Optional.locked a b = refl

pub required-no_measure : (k : Required) → required k no_measure ≡ 0
unfolding no_measure
required-no_measure Required.size = refl
required-no_measure Required.pss = refl
required-no_measure Required.swap = refl
required-no_measure Required.rss = refl

pub optional-no_measure : (k : Optional) → optional k no_measure ≡ none
unfolding no_measure
optional-no_measure Optional.pss_dirty = refl
optional-no_measure Optional.shared_clean = refl
optional-no_measure Optional.shared_dirty = refl
optional-no_measure Optional.private_clean = refl
optional-no_measure Optional.private_dirty = refl
optional-no_measure Optional.referenced = refl
optional-no_measure Optional.anonymous = refl
optional-no_measure Optional.lazy_free = refl
optional-no_measure Optional.anon_huge_pages = refl
optional-no_measure Optional.shmem_pmd_mapped = refl
optional-no_measure Optional.file_pmd_mapped = refl
optional-no_measure Optional.shared_hugetlb = refl
optional-no_measure Optional.private_hugetlb = refl
optional-no_measure Optional.swap_pss = refl
optional-no_measure Optional.locked = refl

-- ===== src/Observer/Tests.antt =====
-- Tests and witnesses of what is read of the proc filesystem.
use lading.Prelude.{arith, false, done, panicked, ◌++◌, ◌≡◌, refl, [], ◌∷◌, some, Text, text_eq}
use lading.Observer.Tokens.{next_token, lines}
use lading.Observer.Smaps.{AggrMeasure, Region, no_measure, aggregate_by_pathname}
use lading.Observer.Regions.{into_region_strs, region_from_str}
use lading.Observer.Stat.{parse}
use lading.Observer.Command.{Lacks}
use lading.Observer.Totals.{find_entry, regions_of, Totals, aggregate_by_pathname-Totals}

next_token-spaces :
    next_token (b' ' ∷ b'k' ∷ b'B' ∷ b' ' ∷ b'a' ∷ []) ≡ some (b'k' ∷ b'B' ∷ [], b' ' ∷ b'a' ∷ [])
unfolding next_token
next_token-spaces = refl

lines-return : lines (97 ∷ 13 ∷ 10 ∷ 10 ∷ 98 ∷ 13 ∷ []) ≡ (97 ∷ []) ∷ [] ∷ (98 ∷ 13 ∷ []) ∷ []
unfolding lines
lines-return = refl

abbrev contents : Text
contents =
    b'1' ∷ b'f' ∷ b'-' ∷ b'2' ∷ b'A' ∷ b' ' ∷ b'r' ∷ b' ' ∷ b'0' ∷ b' ' ∷ b'1' ∷ b':' ∷ b'2' ∷ b' '
    ∷ b'7' ∷ b' ' ∷ b'a' ∷ 10 ∷ b'S' ∷ b'i' ∷ b'z' ∷ b'e' ∷ b':' ∷ b' ' ∷ b'4' ∷ b' ' ∷ b'k' ∷ b'B'
    ∷ 10 ∷ b'R' ∷ b's' ∷ b's' ∷ b':' ∷ b' ' ∷ b'2' ∷ b' ' ∷ b'k' ∷ b'B' ∷ 10 ∷ b'P' ∷ b's' ∷ b's'
    ∷ b':' ∷ b' ' ∷ b'1' ∷ b' ' ∷ b'k' ∷ b'B' ∷ 10 ∷ b'X' ∷ 10 ∷ b'S' ∷ b'w' ∷ b'a' ∷ b'p' ∷ b':'
    ∷ b' ' ∷ b'0' ∷ b' ' ∷ b'k' ∷ b'B' ∷ 10 ∷ []

abbrev read : AggrMeasure
read = record no_measure { size = 4096; rss = 2048; pss = 1024 }

region_from_str-contents :
    region_from_str contents ≡ some (record { pathname = b'a' ∷ []; measure = read })
unfolding region_from_str no_measure text_eq
region_from_str-contents = refl

into_region_strs-contents :
    into_region_strs (b'x' ∷ 10 ∷ contents ++ contents) ≡ contents ∷ contents ∷ []
unfolding into_region_strs
into_region_strs-contents = refl

abbrev region : Region
region = record { pathname = b'a' ∷ []; measure = read }

aggregate_by_pathname-Totals_example :
    Totals
      (regions_of (b'a' ∷ []) (region ∷ region ∷ []))
      (find_entry (b'a' ∷ []) (aggregate_by_pathname (region ∷ region ∷ [])))
aggregate_by_pathname-Totals_example =
    aggregate_by_pathname-Totals (region ∷ region ∷ []) (b'a' ∷ [])

-- `1 (a) (b) S 0 0 0 0 0 0 0 0 0 0 7 8`, by its parts
abbrev after_command : Text
after_command =
    b'S' ∷ 32 ∷ 48 ∷ 32 ∷ 48 ∷ 32 ∷ 48 ∷ 32 ∷ 48 ∷ 32 ∷ 48 ∷ 32 ∷ 48 ∷ 32 ∷ 48 ∷ 32 ∷ 48 ∷ 32 ∷ 48
    ∷ 32 ∷ 48 ∷ 32 ∷ b'7' ∷ 32 ∷ b'8' ∷ []

abbrev stat_line : Text
stat_line = b'1' ∷ 32 ∷ b'(' ∷ b'a' ∷ b')' ∷ 32 ∷ b'(' ∷ b'b' ∷ b')' ∷ 32 ∷ after_command

parse-stat_line : parse stat_line ≡ done (some (record { negative = false; size = 1 }, 7, 8))
unfolding parse
parse-stat_line = refl

-- A text that ends with the parenthesis panics.
parse-short : parse (b'1' ∷ 32 ∷ b'(' ∷ b'a' ∷ b')' ∷ []) ≡ panicked
unfolding parse
parse-short = refl

after_command-Lacks : Lacks b')' after_command
after_command-Lacks = (
  omega arith,
  (
    omega arith,
    (
      omega arith,
      (
        omega arith,
        (
          omega arith,
          (
            omega arith,
            (
              omega arith,
              (
                omega arith,
                (
                  omega arith,
                  (
                    omega arith,
                    (
                      omega arith,
                      (
                        omega arith,
                        (
                          omega arith,
                          (
                            omega arith,
                            (
                              omega arith,
                              (
                                omega arith,
                                (
                                  omega arith,
                                  (
                                    omega arith,
                                    (
                                      omega arith,
                                      (
                                        omega arith,
                                        (
                                          omega arith,
                                          (
                                            omega arith,
                                            (omega arith, (omega arith, (omega arith, tt))),
                                          ),
                                        ),
                                      ),
                                    ),
                                  ),
                                ),
                              ),
                            ),
                          ),
                        ),
                      ),
                    ),
                  ),
                ),
              ),
            ),
          ),
        ),
      ),
    ),
  ),
)

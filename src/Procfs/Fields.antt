-- ===== src/Procfs/Fields.antt =====
-- What the observer makes of a stat file that the payload writes.
use lading.Prelude.{
  ℕ, ◌^◌, ◌≤◌, ◌≡◌, ◌≢◌, refl, sym, ◌∙◌, ap, subst, List, [], ◌∷◌, ◌++◌, All, All-append, arith,
  append_assoc, append_nil, Text, decimal, some, done, u64_max,
}
use lading.Observer.Stat.{split_words, parse_parts, parse}
use lading.Observer.Command.{Lacks, parse-command}
use lading.Procfs.Numbers.{signed, Fits}
use lading.Procfs.Proc.{as_stat_code}
use lading.Procfs.Stat.{Stat, policy_text, row, after_comm, display}
use lading.Procfs.Digits.{as_i32, from_str_radix-decimal, parse_i32-signed}
use lading.Procfs.Words.{
  IsPlain, IsWord, decimal-IsWord, signed-IsWord, policy_text-IsWord, as_stat_code-IsWord,
  append-IsWord, split_word, split_before, split_row,
}

abbrev first_rows : Stat → List (List Text)
first_rows stat =
    (as_stat_code stat.state ∷ signed stat.ppid ∷ signed stat.pgrp ∷ [])
    ∷ (signed stat.session
        ∷ signed stat.tty_nr
        ∷ signed stat.tpgid
        ∷ decimal stat.flags
        ∷ decimal stat.minflt
        ∷ [])
    ∷ (decimal stat.cminflt
        ∷ decimal stat.majflt
        ∷ decimal stat.cmajflt
        ∷ decimal stat.utime
        ∷ decimal stat.stime
        ∷ [])
    ∷ (signed stat.cutime
        ∷ signed stat.cstime
        ∷ signed stat.priority
        ∷ signed stat.nice
        ∷ signed stat.num_threads
        ∷ [])
    ∷ (signed stat.itrealvalue
        ∷ decimal stat.starttime
        ∷ decimal stat.vsize
        ∷ signed stat.rss
        ∷ decimal stat.rsslim
        ∷ [])
    ∷ (decimal stat.startcode
        ∷ decimal stat.endcode
        ∷ decimal stat.startstack
        ∷ decimal stat.kstkesp
        ∷ decimal stat.kstkeip
        ∷ [])
    ∷ (decimal stat.signal
        ∷ decimal stat.blocked
        ∷ decimal stat.sigignore
        ∷ decimal stat.sigcatch
        ∷ decimal stat.wchan
        ∷ [])
    ∷ (decimal stat.nswap
        ∷ decimal stat.cnswap
        ∷ signed stat.exit_signal
        ∷ signed stat.processor
        ∷ decimal stat.rt_priority
        ∷ [])
    ∷ (policy_text stat.policy
        ∷ decimal stat.delayacct_blkio_ticks
        ∷ decimal stat.guest_time
        ∷ decimal stat.cguest_time
        ∷ [])
    ∷ []

-- The rows of words of a stat file from the state on, with `start_data` and `end_data` as one word.
abbrev pub word_rows : Stat → List (List Text)
word_rows stat =
    first_rows stat
    ++ ((decimal stat.start_data ++ decimal stat.end_data)
        ∷ decimal stat.start_brk
        ∷ decimal stat.arg_start
        ∷ decimal stat.arg_end
        ∷ decimal stat.env_start
        ∷ [])
      ∷ (decimal stat.env_end ∷ [])
      ∷ []

-- All its words from the state on.
abbrev pub flatten : List (List Text) → List Text
flatten [] = []
flatten (ws ∷ wss) = ws ++ flatten wss

abbrev pub words : Stat → List Text
words stat = flatten (word_rows stat) ++ signed stat.exit_code ∷ []

-- A text of rows before a last word.
abbrev pub in_rows : List (List Text) → Text → Text
in_rows [] rest = rest
in_rows (ws ∷ wss) rest = row ws ++ in_rows wss rest

word_rows-IsWord : (stat : Stat) → All (All IsWord) (word_rows stat)
word_rows-IsWord stat = (
  (as_stat_code-IsWord stat.state, (signed-IsWord stat.ppid, (signed-IsWord stat.pgrp, tt))),
  (
    (
      signed-IsWord stat.session,
      (
        signed-IsWord stat.tty_nr,
        (signed-IsWord stat.tpgid, (decimal-IsWord stat.flags, (decimal-IsWord stat.minflt, tt))),
      ),
    ),
    (
      (
        decimal-IsWord stat.cminflt,
        (
          decimal-IsWord stat.majflt,
          (
            decimal-IsWord stat.cmajflt,
            (decimal-IsWord stat.utime, (decimal-IsWord stat.stime, tt)),
          ),
        ),
      ),
      (
        (
          signed-IsWord stat.cutime,
          (
            signed-IsWord stat.cstime,
            (
              signed-IsWord stat.priority,
              (signed-IsWord stat.nice, (signed-IsWord stat.num_threads, tt)),
            ),
          ),
        ),
        (
          (
            signed-IsWord stat.itrealvalue,
            (
              decimal-IsWord stat.starttime,
              (
                decimal-IsWord stat.vsize,
                (signed-IsWord stat.rss, (decimal-IsWord stat.rsslim, tt)),
              ),
            ),
          ),
          (
            (
              decimal-IsWord stat.startcode,
              (
                decimal-IsWord stat.endcode,
                (
                  decimal-IsWord stat.startstack,
                  (decimal-IsWord stat.kstkesp, (decimal-IsWord stat.kstkeip, tt)),
                ),
              ),
            ),
            (
              (
                decimal-IsWord stat.signal,
                (
                  decimal-IsWord stat.blocked,
                  (
                    decimal-IsWord stat.sigignore,
                    (decimal-IsWord stat.sigcatch, (decimal-IsWord stat.wchan, tt)),
                  ),
                ),
              ),
              (
                (
                  decimal-IsWord stat.nswap,
                  (
                    decimal-IsWord stat.cnswap,
                    (
                      signed-IsWord stat.exit_signal,
                      (signed-IsWord stat.processor, (decimal-IsWord stat.rt_priority, tt)),
                    ),
                  ),
                ),
                (
                  (
                    policy_text-IsWord stat.policy,
                    (
                      decimal-IsWord stat.delayacct_blkio_ticks,
                      (decimal-IsWord stat.guest_time, (decimal-IsWord stat.cguest_time, tt)),
                    ),
                  ),
                  (
                    (
                      append-IsWord (decimal stat.start_data) (decimal stat.end_data)
                          (decimal-IsWord stat.start_data) (decimal-IsWord stat.end_data),
                      (
                        decimal-IsWord stat.start_brk,
                        (
                          decimal-IsWord stat.arg_start,
                          (decimal-IsWord stat.arg_end, (decimal-IsWord stat.env_start, tt)),
                        ),
                      ),
                    ),
                    ((decimal-IsWord stat.env_end, tt), tt),
                  ),
                ),
              ),
            ),
          ),
        ),
      ),
    ),
  ),
)

join_row :
    (a b : Text) (ws : List Text) (rest : Text)
    → a ++ (row (b ∷ ws) ++ rest) ≡ row ((a ++ b) ∷ ws) ++ rest
unfolding row
join_row a b ws rest =
    sym (append_assoc a (b ++ b' ' ∷ row ws) rest)
    ∙ ap (λ (t : Text). t ++ rest) (sym (append_assoc a b (b' ' ∷ row ws)))

after_comm-in_rows :
    (stat : Stat) → after_comm stat ≡ in_rows (word_rows stat) (signed stat.exit_code)
unfolding after_comm
after_comm-in_rows stat =
    ap (in_rows (first_rows stat)) (
      join_row (decimal stat.start_data) (decimal stat.end_data)
        (decimal stat.start_brk
          ∷ decimal stat.arg_start
          ∷ decimal stat.arg_end
          ∷ decimal stat.env_start
          ∷ [])
        (row (decimal stat.env_end ∷ []) ++ (signed stat.exit_code ++ [])))
    ∙ ap (in_rows (word_rows stat)) (append_nil (signed stat.exit_code))

split_rows :
    (wss : List (List Text)) (rest : Text)
    → All (All IsWord) wss
    → split_words [] (in_rows wss rest) ≡ flatten wss ++ split_words [] rest
split_rows [] rest h = refl
split_rows (ws ∷ wss) rest h =
    split_row ws (in_rows wss rest) h.0
    ∙ ap (λ (l : List Text). ws ++ l) (split_rows wss rest h.1)
    ∙ sym (append_assoc ws (flatten wss) (split_words [] rest))

-- The words of a written stat file from the state on: each field is one, but for `start_data` and
-- `end_data`, which no space separates and which are one word together.
pub split_words-after_comm : (stat : Stat) → split_words [] (after_comm stat) ≡ words stat
split_words-after_comm stat =
    ap (split_words []) (after_comm-in_rows stat)
    ∙ split_rows (word_rows stat) (signed stat.exit_code) (word_rows-IsWord stat)
    ∙ ap (λ (l : List Text). flatten (word_rows stat) ++ l)
        (split_word (signed stat.exit_code) (signed-IsWord stat.exit_code))

plain-Lacks : (t : Text) → All IsPlain t → Lacks b')' t
plain-Lacks [] h = tt
plain-Lacks (c ∷ t) h = (h.0.2, plain-Lacks t h.1)

opening-Lacks : (t : Text) → All IsPlain t → Lacks b'(' t
opening-Lacks [] h = tt
opening-Lacks (c ∷ t) h = (h.0.1, opening-Lacks t h.1)

row-Lacks : (ws : List Text) → All IsWord ws → Lacks b')' (row ws)
unfolding row
row-Lacks [] h = tt
row-Lacks (w ∷ ws) h =
    All-append (λ (c : ℕ). c ≢ b')') w (b' ' ∷ row ws) (plain-Lacks w h.0.1)
      (omega arith, row-Lacks ws h.1)

in_rows-Lacks :
    (wss : List (List Text)) (rest : Text)
    → All (All IsWord) wss
    → Lacks b')' rest
    → Lacks b')' (in_rows wss rest)
in_rows-Lacks [] rest h k = k
in_rows-Lacks (ws ∷ wss) rest h k =
    All-append (λ (c : ℕ). c ≢ b')') (row ws) (in_rows wss rest) (row-Lacks ws h.0)
      (in_rows-Lacks wss rest h.1 k)

after_comm-Lacks : (stat : Stat) → Lacks b')' (after_comm stat)
after_comm-Lacks stat = subst (Lacks b')') (sym (after_comm-in_rows stat)) (
    in_rows-Lacks (word_rows stat) (signed stat.exit_code) (word_rows-IsWord stat)
      (plain-Lacks (signed stat.exit_code) (signed-IsWord stat.exit_code).1))

-- The process ID is an `i32`, and the times are `u64`.
abbrev pub IsInRange : Stat → Type 0
IsInRange stat = Fits (2 ^ 31) stat.pid × (stat.utime ≤ u64_max) × (stat.stime ≤ u64_max)

parse_parts-words :
    (stat : Stat)
    → IsInRange stat
    → parse_parts (signed stat.pid ∷ []) (words stat)
      ≡ some (as_i32 stat.pid, stat.utime, stat.stime)
unfolding parse_parts
parse_parts-words stat h =
    rw
      (
        parse_i32-signed stat.pid h.0,
        from_str_radix-decimal stat.utime h.1,
        from_str_radix-decimal stat.stime h.2,
      )
      refl

-- Whatever the command is, with parentheses and white space in it too: of the text that `Stat` is
-- written as, the observer's `parse` does not panic and reads the process ID and the two times that
-- the `Stat` has, where each of them fits its type.
pub parse-display :
    (stat : Stat)
    → IsInRange stat
    → parse (display stat) ≡ done (some (as_i32 stat.pid, stat.utime, stat.stime))
unfolding display
parse-display stat h =
    let word : IsWord (signed stat.pid) = signed-IsWord stat.pid in
    parse-command (signed stat.pid ++ b' ' ∷ []) stat.comm (after_comm stat)
      (All-append (λ (c : ℕ). c ≢ b'(') (signed stat.pid) (b' ' ∷ [])
        (opening-Lacks (signed stat.pid) word.1) (omega arith, tt))
      (after_comm-Lacks stat)
    ∙ ap (λ (l : List Text). done (parse_parts l (split_words [] (after_comm stat))))
        (split_before (signed stat.pid) word)
    ∙ ap (λ (l : List Text). done (parse_parts (signed stat.pid ∷ []) l))
        (split_words-after_comm stat)
    ∙ ap done (parse_parts-words stat h)

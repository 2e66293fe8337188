-- ===== src/Rest/Archive.antt =====
-- The public archive of delisted spot symbols: the last line of a CSV file, the newest file, the retries.
-- Regular expressions, zlib and `std::stoll` are parameters.
use bybit_cpp_api.Base.{
  ℕ, zero, suc, ◌+◌, ◌||◌, Option, none, some, List, [], ◌∷◌, reverse, if◌then◌else◌, ◌==◌,
  is_empty,
}
use bybit_cpp_api.Text.{Text, codes, after_part}
use bybit_cpp_api.Errors.{Result, ok, err, runtime_error, ◌>>=◌}
use bybit_cpp_api.Rest.Parameters.{is_less}

-- A text from the end on, without the newlines and carriage returns that it begins with.
unfoldable pub drop_newlines : Text → Text
drop_newlines [] = []
drop_newlines (c ∷ t) = let rest = drop_newlines t in if c == 10 || c == 13 then rest else c ∷ t

-- A text up to a character.
unfoldable pub up_to : ℕ → Text → Text
up_to c [] = []
up_to c (d ∷ t) = let rest = up_to c t in if d == c then [] else d ∷ rest

unfoldable pub last_line : Text → Text
unfolding drop_newlines up_to
last_line csv = reverse (up_to 10 (drop_newlines (reverse csv)))

-- The second field of the line.
abbrev pub second_field : (Text → Result ℕ) → Option Text → Result ℕ
second_field stoll none = err (runtime_error (codes "Unexpected CSV format: no comma in last line"))
second_field stoll (some rest) = stoll (up_to b',' rest)

-- `lastCsvTimestamp`.
unfoldable pub last_csv_timestamp : (Text → Result ℕ) → Text → Result ℕ
unfolding last_line
last_csv_timestamp stoll csv =
    if is_empty (drop_newlines (reverse csv))
    then err (runtime_error (codes "CSV data is empty"))
    else second_field stoll (after_part (b',' ∷ []) (last_line csv))

-- The loop over the files that a listing names, by their dates: the name of the first with the latest.
unfoldable pub latest_file : Text → Text → List (Text × Text) → Text × Text
latest_file date name [] = (date, name)
latest_file date name ((d, n) ∷ files) =
    let newer = latest_file d n files in
    let same = latest_file date name files in if is_less date d then newer else same

-- The retries: the first attempt that does not throw, or what is returned behind the last.
unfoldable pub retried : {A : Type 0} → ℕ → ℕ → (ℕ → Result A) → A → A
retried zero n attempt fallback = fallback
retried (suc left) n attempt fallback =
    let rest = retried left (n + 1) attempt fallback in elim (attempt n) [ ok a ↦ a | err x ↦ rest ]

-- What one attempt of `fetchLastTimestampForDelistedSymbol` does with the newest file.
abbrev pub read_latest :
    (Text → Result Text) → (Text → Result Text) → (Text → Result ℕ) → Text → Result ℕ
read_latest get_file decompress stoll name =
    if is_empty name then ok 0 else get_file name >>= decompress >>= last_csv_timestamp stoll

-- `fetchLastTimestampForDelistedSymbol`: the answers of an attempt are those of its number.
unfoldable pub fetch_last_timestamp :
    (ℕ → Result Text)
    → (Text → List (Text × Text))
    → (ℕ → Text → Result Text)
    → (Text → Result Text)
    → (Text → Result ℕ)
    → ℕ
unfolding retried latest_file last_csv_timestamp
fetch_last_timestamp get_listing files get_file decompress stoll =
    retried 3 0
      (λ n.
        get_listing n
        >>= (λ body. read_latest (get_file n) decompress stoll (latest_file [] [] (files body)).1))
      0

-- `fetchPublicSpotSymbols`.
unfoldable pub fetch_public_spot_symbols : (ℕ → Result Text) → (Text → List Text) → List Text
unfolding retried
fetch_public_spot_symbols get_listing links =
    retried 3 0 (λ n. get_listing n >>= (λ body. ok (links body))) []

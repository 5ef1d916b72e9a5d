-- ===== src/Logging/Resumed.antt =====
-- The log over several runs of a station, each of which opens the same file again.
use mathlib.Core.List.{append_assoc, append-nil, map-append}
use hp34401a_driver.Base.{List, [], ◌∷◌, ◌++◌, ◌≡◌, refl, sym, ap, ◌∙◌, map}
use hp34401a_driver.Base.Dict.{find}
use hp34401a_driver.Measurement.{MeasurementReading}
use hp34401a_driver.Logging.{
  Cell, RowContext, Row, reading_to_csv_row, File, header, open_log, ordered, write_row,
}

-- What a run logs: its readings with their contexts.
abbrev Logged : Type 0 → Type 0
Logged F = List (MeasurementReading F × RowContext F)

module _ {F : Type 0} where
  abbrev row_of : MeasurementReading F × RowContext F → Row F
  row_of (r, c) = reading_to_csv_row r c

  -- The cells of a row, without their names.
  abbrev pub cells : MeasurementReading F × RowContext F → List (Cell F)
  cells p = map (λ e. e.1) (row_of p)

  write_rows : Logged F → File F → File F
  write_rows [] file = file
  write_rows (p ∷ ps) file = write_rows ps (write_row (row_of p) file)

  pub run_logs : List (Logged F) → File F → File F
  run_logs [] file = file
  run_logs (ps ∷ runs) file = run_logs runs (write_rows ps (open_log file))

  abbrev all_of : List (Logged F) → Logged F
  all_of [] = []
  all_of (ps ∷ runs) = ps ++ all_of runs

  -- The row of a reading has every column, and nothing else.
  ordered-reading : (p : MeasurementReading F × RowContext F) → ordered (row_of p) ≡ cells p
  unfolding ordered reading_to_csv_row find
  ordered-reading p = refl

  write_rows-append : (ps : Logged F) (file : File F) → write_rows ps file ≡ file ++ map cells ps
  unfolding write_rows write_row
  write_rows-append [] file = sym (append-nil file)
  write_rows-append (p ∷ ps) file =
      write_rows-append ps (file ++ ordered (row_of p) ∷ [])
      ∙ append_assoc file (ordered (row_of p) ∷ []) (map cells ps)
      ∙ ap (λ line. file ++ line ∷ map cells ps) (ordered-reading p)

  -- Every run after the header is there appends its readings.
  run_logs-append :
      (runs : List (Logged F)) (line : List (Cell F)) (lines : File F)
      → run_logs runs (line ∷ lines) ≡ line ∷ lines ++ map cells (all_of runs)
  unfolding run_logs open_log
  run_logs-append [] line lines = ap (λ x. line ∷ x) (sym (append-nil lines))
  run_logs-append (ps ∷ runs) line lines =
      ap (run_logs runs) (write_rows-append ps (line ∷ lines))
      ∙ run_logs-append runs line (lines ++ map cells ps)
      ∙ ap (λ x. line ∷ x)
          (append_assoc lines (map cells ps) (map cells (all_of runs))
            ∙ ap (λ x. lines ++ x) (sym (map-append cells ps (all_of runs))))

  -- However often the log is opened again, starting with no file, the file has one header, and then
  -- one line for each reading, in order, with every cell of its row in the column of its name.
  pub run_logs-eq :
      (ps : Logged F) (runs : List (Logged F))
      → run_logs (ps ∷ runs) [] ≡ header ∷ map cells (all_of (ps ∷ runs))
  unfolding run_logs open_log
  run_logs-eq ps runs = run_logs-append (ps ∷ runs) header []

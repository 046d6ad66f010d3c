-- ===== src/Client/Transfer/Complete.antt =====
-- A download gets every object of the server that is newer than its starting point, if no two
-- objects share a creation time.
use mathlib.Core.List.{append-nil, append_assoc, map-append}
use data_telemetry.Prelude.{
  ℕ, zero, suc, ◌<◌, ◌≤◌, if◌then◌else◌, String, ◌≡◌, refl, ◌∙◌, sym, ap, List, [], ◌∷◌, ◌++◌, map,
  arith, ltb, ltb→lt, length, take, drop, Bool-cases, inl, inr, take-append-drop, length-drop,
  take_short,
}
use data_telemetry.Errors.{Digest, Bytes, ok}
use data_telemetry.Action.{Action, labelled, pure, ◌>>◌}
use data_telemetry.Action.Returns.{
  Returns, Returns-bind, Returns-then, Returns-labelled, Returns-weaken,
}
use data_telemetry.Types.{Time, ListResultEntry}
use data_telemetry.Types.Listing.{
  after, last_time, IsAscending, after-last_time-take, last_time-append,
}
use data_telemetry.Client.Requests.{Url, Http, do_list_request}
use data_telemetry.Client.Transfer.{Files, write_record_to_csv, write_results, download_loop}
use data_telemetry.Client.Transfer.Contract.{
  Serves, HasDigests, HasDigests-take, HasDigests-after, length-take_full, row, index_row,
}

module _ {W : Type 0} (h : Http W) (fs : Files W) (u : Url) (obj_type token dir file : String)
    (S : Serves h fs u obj_type token file) where
  abbrev Holds : List ListResultEntry → List (List String) → W → Type 0
  Holds es rs w = (S.served w ≡ es) × (S.written w ≡ rs)

  row_written :
      (e : ListResultEntry) (d : Digest) (ds : List Digest) (es : List ListResultEntry)
      (rs : List (List String)) (w : W)
      → Holds es rs w
      → Returns
          (write_record_to_csv h fs e (d ∷ ds) dir file)
          w
          tt
          (Holds es (rs ++ (row h fs (d ∷ ds) ∷ [])))
  unfolding write_record_to_csv
  row_written e d ds es rs w now =
      Returns-bind _ _ w tt tt (Returns-labelled _ _ w tt (S.file_written _ e.content w)) λ w' kept.
        Returns-weaken _ w' tt (S.record_written _ w') λ w'' added. (
          added.0 ∙ kept.0 ∙ now.0,
          added.1 ∙ ap (λ l. l ++ (row h fs (d ∷ ds) ∷ [])) (kept.1 ∙ now.1),
        )

  entry_written :
      (e : ListResultEntry) (es : List ListResultEntry) (rs : List (List String)) (w : W)
      → ((d : Digest) × (ds : List Digest) × (e.digests ≡ d ∷ ds))
      → Holds es rs w
      → Returns
          (write_record_to_csv h fs e e.digests dir file)
          w
          tt
          (Holds es (rs ++ (index_row h fs e ∷ [])))
  unfolding index_row write_record_to_csv
  entry_written e es rs w (d, ds, named) now = rw named (row_written e d ds es rs w now)

  results_written :
      (new : List ListResultEntry) (latest : Time) (es : List ListResultEntry)
      (rs : List (List String)) (w : W)
      → HasDigests new
      → Holds es rs w
      → Returns
          (write_results h fs new latest dir file)
          w
          (last_time latest new)
          (Holds es (rs ++ map (index_row h fs) new))
  unfolding write_results
  results_written [] latest es rs w named now = record {
    value = refl;
    after = (now.0, now.1 ∙ sym (append-nil rs));
  }
  results_written (e ∷ new) latest es rs w named now =
      Returns-bind _ _ w tt _ (entry_written e es rs w named.0 now) λ w' there.
        Returns-weaken _ w' _
          (results_written new e.created_at es (rs ++ (index_row h fs e ∷ [])) w' named.1 there)
          λ w'' done.
            (done.0, done.1 ∙ append_assoc rs (index_row h fs e ∷ []) (map (index_row h fs) new))

  flush_kept :
      (es : List ListResultEntry) (rs : List (List String)) (w : W)
      → Holds es rs w
      → Returns {A = Unit {0}} (λ w'. (ok tt, fs.flush file w')) w tt (Holds es rs)
  flush_kept es rs w now = record {
    value = refl;
    after = ((S.flushed w).0 ∙ now.0, (S.flushed w).1 ∙ now.1);
  }

  file_kept :
      (path : String) (content : Bytes) (es : List ListResultEntry) (rs : List (List String))
      (w : W)
      → Holds es rs w
      → Returns (fs.write_file path content) w tt (Holds es rs)
  file_kept path content es rs w now =
      Returns-weaken _ w tt (S.file_written path content w)
        λ w' kept. (kept.0 ∙ now.0, kept.1 ∙ now.1)

  page_listed :
      (t : Time) (b : ℕ) (es : List ListResultEntry) (rs : List (List String)) (w : W)
      → Holds es rs w
      → Returns (do_list_request h u obj_type t b token) w (take b (after t es)) (Holds es rs)
  page_listed t b es rs w now = rw now.0 at (
      Returns-weaken _ w _ (S.listed t b w)
        λ w' kept. let e : Holds es rs w' = (kept.0 ∙ now.0, kept.1 ∙ now.1) in e)

  -- What the later rounds add to a first page makes up the whole.
  rest_of_pages :
      (m : Action W Time) (b : ℕ) (t : Time) (es : List ListResultEntry) (rs : List (List String))
      (w : W)
      → IsAscending es
      → let new = after t es in
        let t' = last_time t (take b new) in
        Returns m w (last_time t' (after t' es)) (
          Holds es
            ((rs ++ map (index_row h fs) (take b new)) ++ map (index_row h fs) (after t' es)))
        → Returns m w (last_time t new) (Holds es (rs ++ map (index_row h fs) new))
  rest_of_pages m b t es rs w sorted later =
      let new = after t es in
      let rows = map (index_row h fs) in
      let drops : after (last_time t (take b new)) es ≡ drop b new =
        after-last_time-take b t es sorted in
      let ends : last_time (last_time t (take b new)) (drop b new) ≡ last_time t new =
        sym (last_time-append t (take b new) (drop b new))
        ∙ ap (last_time t) (take-append-drop b new) in
      let joined : (rs ++ rows (take b new)) ++ rows (drop b new) ≡ rs ++ rows new =
        append_assoc rs (rows (take b new)) (rows (drop b new))
        ∙ ap (λ l. rs ++ l)
            (sym (map-append (index_row h fs) (take b new) (drop b new))
              ∙ ap rows (take-append-drop b new)) in
      record {
        value = later.value ∙ ap ok (ap (last_time (last_time t (take b new))) drops ∙ ends);
        after = (
          later.after.0,
          later.after.1 ∙ ap (λ l. (rs ++ rows (take b new)) ++ rows l) drops ∙ joined,
        );
      }

  -- The end of a round: the page was the last, or the loop `m` goes on.
  abbrev finish_round : Action W Time → List ListResultEntry → Time → ℕ → Action W Time
  finish_round m page newest b =
      if ltb (length page) b
      then pure newest
      else labelled "unable to incrementally write the latest timestamp file"
          (fs.write_file (fs.join_path dir "index.latest") (fs.format_time newest))
        >> m

  round_end :
      (m : Action W Time) (b : ℕ) (t : Time) (es : List ListResultEntry) (rs : List (List String))
      (w : W)
      → IsAscending es
      → Holds es (rs ++ map (index_row h fs) (take b (after t es))) w
      → let t' = last_time t (take b (after t es)) in
        ((w' : W)
          → b ≤ length (after t es)
          → Holds es (rs ++ map (index_row h fs) (take b (after t es))) w'
          → Returns m w' (last_time t' (after t' es)) (
              Holds es (
                (rs ++ map (index_row h fs) (take b (after t es)))
                ++ map (index_row h fs) (after t' es))))
        → Returns
            (finish_round m (take b (after t es)) t' b)
            w
            (last_time t (after t es))
            (Holds es (rs ++ map (index_row h fs) (after t es)))
  round_end m b t es rs w sorted now later =
      elim (Bool-cases (ltb (length (take b (after t es))) b)) [
        | inl short ↦
            let all = take_short b (after t es) (ltb→lt _ _ short) in
            rw short (record {
              value = ap (λ l. ok (last_time t l)) all;
              after = (now.0, now.1 ∙ ap (λ l. rs ++ map (index_row h fs) l) all);
            })
        | inr more ↦ rw more (
            rest_of_pages _ b t es rs w sorted (
              Returns-bind _ _ w tt _ (Returns-labelled _ _ w tt (file_kept _ _ es _ w now))
                λ w' now'. later w' (length-take_full b (after t es) more) now'))
      ]

  -- From a server that answers list requests with pages of its objects, which have digests and
  -- strictly ascending creation times, onto a disk whose writes succeed, and with a page size that
  -- is not 0, the paging loop ends within as many rounds as there are new objects, and one more.
  -- It has then written one record for each object that is newer than its start, in the order of
  -- creation, none twice, and it returns the creation time of the last.
  pub download_loop_complete :
      (fuel : ℕ) (batch_size : ℕ) (latest : Time) (es : List ListResultEntry)
      (rs : List (List String)) (w : W)
      → IsAscending es
      → HasDigests es
      → 0 < batch_size
      → length (after latest es) < fuel
      → Holds es rs w
      → Returns
          (download_loop h fs fuel u obj_type latest batch_size dir file token)
          w
          (last_time latest (after latest es))
          (Holds es (rs ++ map (index_row h fs) (after latest es)))
  unfolding download_loop
  download_loop_complete zero b t es rs w sorted named pos room now = absurd (omega arith)
  download_loop_complete (suc fuel) b t es rs w sorted named pos room now =
      Returns-bind _ _ w (take b (after t es)) _ (page_listed t b es rs w now) λ w1 now1.
        Returns-bind _ _ w1 (last_time t (take b (after t es))) _
          (results_written (take b (after t es)) t es rs w1
            (HasDigests-take b (after t es) (HasDigests-after t es named)) now1)
          λ w2 now2.
            let newest = last_time t (take b (after t es)) in
            let again = download_loop h fs fuel u obj_type newest b dir file token in
            Returns-then _ (finish_round again (take b (after t es)) newest b) w2 tt
              (last_time t (after t es)) (flush_kept es _ w2 now2)
              λ w3 now3. round_end again b t es rs w3 sorted now3 λ w4 full now4.
                let fits : length (after newest es) < fuel =
                  rw (after-last_time-take b t es sorted)
                    (omega (arith, length-drop b (after t es))) in
                download_loop_complete fuel b newest es
                  (rs ++ map (index_row h fs) (take b (after t es))) w4 sorted named pos fits now4

-- ===== src/Oss/Parts.antt =====
-- `stream_parts`: the parts that it sends are the file, cut up, in order.
use scriptorium.Oss.Cut.{
  parts_left, fits_later, Sends, joined, take_all, IsCut, part_numbers-snoc, numbers, Sends-snoc,
  IsPartNumber, max_parts,
}
use scriptorium.Oss.Multipart.{
  sent, IsFile, fill_lem, nil_of_length, is_nil-lem, pos_of_is_nil, drop-drop, sent-here,
}
use scriptorium.FilePath.{FilePath}
use scriptorium.Text.{Text}
use scriptorium.Oss.Upload.{OssClient, send_parts, fill, upload_part, stream_parts, i32_mod}
use scriptorium.World.Calls.{Env, Bytes, CompletedPart, History, uploaded_part, opened}
use scriptorium.Base.{
  ◌∷◌, List, ℕ, ◌++◌, ◌≡◌, ◌<◌, [], ◌+◌, length, sym, arith, append-nil, is_nil, Option, map, true,
  false, suc, ltb, drop, take, min, length-take, Bool-cases, inl, subst, inr, zero, ap, ◌∙◌,
  take-append-drop, length-drop, ◌≤◌, ◌%◌, ◌*◌,
}
use scriptorium.Error.{ok}

module _ (env : Env) (c : OssClient) (key upload_id : Text) (path : FilePath) where
  -- The three ways through a round, from what the buffer holds.
  stop_round :
      (fuel n offset : ℕ) (done : List CompletedPart) (hashed chunk : Bytes) (h : History)
      → (fill env c.part_size path offset c.part_size [] h).1 ≡ ok chunk
      → is_nil chunk ≡ true
      → send_parts env c (suc fuel) key path upload_id n offset done hashed h
        ≡ ((fill env c.part_size path offset c.part_size [] h).0, ok (done, hashed))
  unfolding send_parts
  stop_round fuel n offset done hashed chunk h got e = ground (arith, got, e)

  last_round :
      (fuel n offset : ℕ) (done : List CompletedPart) (hashed chunk : Bytes) (e_tag : Option Text)
      (h : History)
      → (fill env c.part_size path offset c.part_size [] h).1 ≡ ok chunk
      → is_nil chunk ≡ false
      → env.upload_part (fill env c.part_size path offset c.part_size [] h).0 upload_id n chunk
        ≡ ok e_tag
      → ltb (length chunk) c.part_size ≡ true
      → send_parts env c (suc fuel) key path upload_id n offset done hashed h ≡ (
        uploaded_part c.bucket key upload_id n chunk
            ∷ (fill env c.part_size path offset c.part_size [] h).0,
        ok (done ++ (record { part_number = n; e_tag = e_tag } ∷ []), hashed ++ chunk),
      )
  unfolding send_parts upload_part
  last_round fuel n offset done hashed chunk e_tag h got e up short =
      ground (arith, got, e, up, short)

  full_round :
      (fuel n offset : ℕ) (done : List CompletedPart) (hashed chunk : Bytes) (e_tag : Option Text)
      (h : History)
      → (fill env c.part_size path offset c.part_size [] h).1 ≡ ok chunk
      → is_nil chunk ≡ false
      → env.upload_part (fill env c.part_size path offset c.part_size [] h).0 upload_id n chunk
        ≡ ok e_tag
      → ltb (length chunk) c.part_size ≡ false
      → send_parts env c (suc fuel) key path upload_id n offset done hashed h
        ≡ send_parts env c fuel key path upload_id
            ((n + 1) % i32_mod)
            (offset + length chunk)
            (done ++ (record { part_number = n; e_tag = e_tag } ∷ []))
            (hashed ++ chunk)
            (uploaded_part c.bucket key upload_id n chunk
              ∷ (fill env c.part_size path offset c.part_size [] h).0)
  unfolding send_parts upload_part
  full_round fuel n offset done hashed chunk e_tag h got e up full =
      ground (arith, got, e, up, full)

  module _ (contents : Bytes) (file : IsFile env path contents) (size_pos : 0 < c.part_size)
      (uploads : (h : History) (n : ℕ) (bytes : Bytes)
        → IsPartNumber n
        → (e_tag : Option Text) × (env.upload_part h upload_id n bytes ≡ ok e_tag)) where
    send_parts-Sends :
        (fuel left n offset : ℕ) (done : List CompletedPart) (hashed : Bytes) (h : History)
        → length (drop offset contents) < fuel
        → 1 ≤ n
        → n + left ≡ 1 + max_parts
        → length (drop offset contents) ≤ left * c.part_size
        → Sends upload_id c.part_size n
            (drop offset contents)
            done
            hashed
            h
            (send_parts env c fuel key path upload_id n offset done hashed h)
    send_parts-Sends zero left n offset done hashed h enough one some_left fits =
        absurd (omega arith)
    send_parts-Sends (suc fuel) left n offset done hashed h enough one some_left fits =
        let rest = drop offset contents in
        let chunk = take c.part_size rest in
        let filled =
          fill_lem env path contents file upload_id c.part_size offset c.part_size [] h
            (omega arith) in
        let len : length chunk ≡ min c.part_size (length rest) = length-take c.part_size rest in
        elim (Bool-cases (is_nil chunk)) [
          | inl empty ↦
              subst (Sends upload_id c.part_size n rest done hashed h)
                (sym (stop_round fuel n offset done hashed chunk h filled.0 empty))
                (
                  done,
                  [],
                  ap (λ r. ok (done, r))
                      (sym (append-nil hashed) ∙ ap (λ r. hashed ++ r) (sym (none_left empty))),
                  filled.1,
                  sym (none_left empty),
                  tt,
                  omega (arith, some_left),
                  sym (append-nil (map CompletedPart.part_number done)),
                )
          | inr more ↦
              let h₁ = (fill env c.part_size path offset c.part_size [] h).0 in
              let (left', one_less) =
                parts_left left c.part_size (length rest) fits
                  (omega (arith, pos_of_is_nil chunk more, len)) in
              let (e_tag, up) = uploads h₁ n chunk (one, omega (arith, some_left, one_less)) in
              let counted : (n + 1) % i32_mod ≡ n + 1 = omega (arith, some_left, one_less) in
              elim (Bool-cases (ltb (length chunk) c.part_size)) [
                | inl short ↦
                    let all_sent : chunk ≡ rest =
                      take_all c.part_size rest (ground (arith, short, len)) in
                    subst (Sends upload_id c.part_size n rest done hashed h)
                      (sym
                        (last_round fuel n offset done hashed chunk e_tag h filled.0 more up short))
                      (
                        done ++ (record { part_number = n; e_tag = e_tag } ∷ []),
                        (n, chunk) ∷ [],
                        ap
                            (λ r. ok (
                              done ++ (record { part_number = n; e_tag = e_tag } ∷ []),
                              hashed ++ r,
                            ))
                            all_sent,
                        sent-here c.bucket key upload_id n chunk h₁
                            ∙ ap (λ r. (n, chunk) ∷ r) filled.1,
                        all_sent,
                        (omega arith, pos_of_is_nil chunk more, omega (arith, len), tt, tt),
                        omega (arith, some_left, one_less),
                        part_numbers-snoc done n e_tag,
                      )
                | inr full ↦
                    let size : length chunk ≡ c.part_size = ground (arith, full, len) in
                    let next : drop (offset + length chunk) contents ≡ drop c.part_size rest =
                      ap (λ k. drop (offset + k) contents) size
                      ∙ sym (drop-drop offset c.part_size contents) in
                    subst (Sends upload_id c.part_size n rest done hashed h)
                      (sym (
                        full_round fuel n offset done hashed chunk e_tag h filled.0 more up full
                        ∙ ap
                            (λ k.
                              send_parts env c fuel key path upload_id k (offset + length chunk)
                                (done ++ (record { part_number = n; e_tag = e_tag } ∷ []))
                                (hashed ++ chunk)
                                (uploaded_part c.bucket key upload_id n chunk ∷ h₁))
                            counted))
                      (Sends-snoc upload_id c.part_size n rest
                        (drop (offset + length chunk) contents) chunk done e_tag hashed h
                        (uploaded_part c.bucket key upload_id n chunk ∷ h₁)
                        (send_parts env c fuel key path upload_id (n + 1) (offset + length chunk)
                          (done ++ (record { part_number = n; e_tag = e_tag } ∷ []))
                          (hashed ++ chunk) (uploaded_part c.bucket key upload_id n chunk ∷ h₁))
                        size_pos size
                        (ap (λ r. chunk ++ r) next ∙ take-append-drop c.part_size rest)
                        (sent-here c.bucket key upload_id n chunk h₁
                          ∙ ap (λ r. (n, chunk) ∷ r) filled.1)
                        (send_parts-Sends fuel left' (n + 1) (offset + length chunk) _ _ _
                          (omega (
                            arith,
                            ap length next,
                            length-drop c.part_size rest,
                            pos_of_is_nil chunk more,
                            len,
                          ))
                          (omega arith) (omega (arith, some_left, one_less))
                          (fits_later left left' c.part_size (length rest) _ fits one_less
                            (ap length next ∙ length-drop c.part_size rest))))
              ]
        ]
      where
        none_left :
            is_nil (take c.part_size (drop offset contents)) ≡ true → drop offset contents ≡ []
        none_left empty = nil_of_length (drop offset contents) (
            omega (
              arith,
              ap length (is_nil-lem (take c.part_size (drop offset contents)) empty),
              length-take c.part_size (drop offset contents),
              size_pos,
            ))

    -- Where `open` answers, `upload_part` answers for the part numbers from 1 to 10000, `read` reads the
    -- file, however little at a time, the part size is not 0 and the file is at most 10000 parts long,
    -- fuel beyond the length of the file is enough for `stream_parts`. It then gives a list of parts and
    -- the SHA-256 of the whole file; what it has sent is the file, cut into at most 10000 parts of the
    -- part size, but for a shorter last one, that are numbered from 1; and the parts of the list have
    -- the same numbers in the same order.
    pub stream_parts_sends :
        (fuel : ℕ) (h : History)
        → length contents < fuel
        → length contents ≤ max_parts * c.part_size
        → env.open_file h path ≡ ok tt
        → let s = stream_parts env c fuel key path upload_id h in
          (parts : List CompletedPart) × (new : List (ℕ × Bytes)) × (s.1
            ≡ ok (parts, env.sha256_hex contents))
          × (sent upload_id s.0 ≡ new ++ sent upload_id h)
          × (joined new ≡ contents)
          × IsCut c.part_size 1 new
          × (length new ≤ max_parts)
          × (map CompletedPart.part_number parts ≡ numbers new)
    unfolding stream_parts
    stream_parts_sends fuel h enough fits opens =
        let (parts, new, e, e_sent, e_joined, good, few, e_numbers) =
          send_parts-Sends fuel max_parts 1 0 [] [] (opened path ∷ h) enough (omega arith)
            (omega arith) fits in
        (
          parts,
          new,
          ground (arith, opens, e),
          ground (arith, opens, e, e_sent),
          e_joined,
          good,
          omega (arith, few),
          e_numbers,
        )

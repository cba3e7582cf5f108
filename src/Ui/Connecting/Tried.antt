-- ===== src/Ui/Connecting/Tried.antt =====
-- The passwords that `connectSFTPwithPwd` of internal/ui/app.go tries.
use lazyssh.Base.{
  ◌≤◌, Bool, true, false, Option, none, some, List, [], ◌∷◌, Bytes, length, ◌≡◌, refl, ap,
  bytes_beq, arith, bytes_eq, Bool-cases, inl, inr,
}
use lazyssh.Base.Result.{ok}
use lazyssh.Strings.{has_prefix}
use lazyssh.Model.{Host, auth_type_password}
use lazyssh.Config.Base64.RoundTrip.{AreBytes}
use lazyssh.Config.Crypto.{Aead, salt_len, nonce_len, is_encrypted, encrypt, decrypt}
use lazyssh.Config.Crypto.RoundTrip.{decrypt-encrypt}
use lazyssh.Ui.Connecting.{
  Reply, connected, auth_error, other_error, Choice, use_password, ask_master, not_decrypted,
  Outcome, retry, after_reply, after_choice, choose, connect_sftp,
}

module _ (aead : Aead) (dial : Bytes → Reply) (h : Host) where
  after_reply_retried :
      (master : Bytes) (r : Reply) (next : Option (Option Bytes))
      (again : Bytes → Bytes → Bool → Outcome)
      → (after_reply master true r next again).tried ≡ []
  after_reply_retried master connected next again = refl
  after_reply_retried master auth_error next again = refl
  after_reply_retried master other_error next again = refl

  forced_choice :
      (master forced : Bytes)
      → bytes_beq forced [] ≡ false
      → choose aead h master forced ≡ use_password forced
  unfolding choose
  forced_choice master forced e = rw e refl

  -- With a typed password only that one is tried.
  retried_once :
      (answers : List (Option Bytes)) (master forced : Bytes)
      → bytes_beq forced [] ≡ false
      → (connect_sftp aead dial h answers master forced true).tried ≡ forced ∷ []
  unfolding connect_sftp
  retried_once [] master forced e =
      rw (forced_choice master forced e)
        (ap (λ l. forced ∷ l) (after_reply_retried master (dial forced) none _))
  retried_once (a ∷ answers) master forced e =
      rw (forced_choice master forced e)
        (ap (λ l. forced ∷ l) (after_reply_retried master (dial forced) (some a) _))

  retry_few :
      (answers : List (Option Bytes)) (master pwd : Bytes)
      → length (retry master pwd (connect_sftp aead dial h answers)).tried ≤ 1
  retry_few answers master pwd = elim (Bool-cases (bytes_beq pwd [])) [
    | inl e ↦ rw e (omega arith)
    | inr e ↦ rw (e, retried_once answers master pwd e) (omega arith)
  ]

  after_reply_few :
      (master : Bytes) (r : Reply) (answers : List (Option Bytes)) (a : Option Bytes)
      → length (after_reply master false r (some a) (connect_sftp aead dial h answers)).tried ≤ 1
  after_reply_few master connected answers a = omega arith
  after_reply_few master other_error answers a = omega arith
  after_reply_few master auth_error answers none = omega arith
  after_reply_few master auth_error answers (some pwd) = retry_few answers master pwd

  after_choice_few :
      (master : Bytes) (c : Choice) (answers : List (Option Bytes)) (a : Option Bytes)
      → ((m : Bytes) → length (connect_sftp aead dial h answers m [] false).tried ≤ 2)
      → length (after_choice dial master false c (some a) (connect_sftp aead dial h answers)).tried
        ≤ 2
  after_choice_few master (use_password p) answers a ih =
      omega (arith, after_reply_few master (dial p) answers a)
  after_choice_few master ask_master answers none ih = omega arith
  after_choice_few master ask_master answers (some pwd) ih = ih pwd
  after_choice_few master not_decrypted answers a ih = omega arith

  no_answer_few :
      (master : Bytes) (r : Reply) (again : Bytes → Bytes → Bool → Outcome)
      → (after_reply master false r none again).tried ≡ []
  no_answer_few master connected again = refl
  no_answer_few master auth_error again = refl
  no_answer_few master other_error again = refl

  last_few :
      (master : Bytes) (c : Choice) (again : Bytes → Bytes → Bool → Outcome)
      → length (after_choice dial master false c none again).tried ≤ 2
  last_few master (use_password p) again = rw (no_answer_few master (dial p) again) (omega arith)
  last_few master ask_master again = omega arith
  last_few master not_decrypted again = omega arith

  -- A call tries at most two passwords, whatever the user answers and however often the master
  -- password is asked for: a wrong password does not make it loop.
  pub length-tried :
      (answers : List (Option Bytes)) (master : Bytes)
      → length (connect_sftp aead dial h answers master [] false).tried ≤ 2
  unfolding connect_sftp
  length-tried [] master = last_few master (choose aead h master []) _
  length-tried (a ∷ answers) master =
      after_choice_few master (choose aead h master []) answers a (length-tried answers)

  ask_choice :
      (v : Bytes)
      → bytes_beq h.auth_type auth_type_password ≡ true
      → h.password ≡ v
      → bytes_beq v [] ≡ false
      → is_encrypted v ≡ true
      → choose aead h [] [] ≡ ask_master
  unfolding choose bytes_beq
  ask_choice v t p given e = rw (p, t, given, e) refl

  decrypted_choice :
      (v master plain : Bytes)
      → bytes_beq h.auth_type auth_type_password ≡ true
      → h.password ≡ v
      → bytes_beq v [] ≡ false
      → is_encrypted v ≡ true
      → bytes_beq master [] ≡ false
      → decrypt aead master v ≡ ok plain
      → choose aead h master [] ≡ use_password plain
  unfolding choose bytes_beq
  decrypted_choice v master plain t p given e m d = rw (p, t, given, e, m, d) refl

  encrypted_given : (v : Bytes) → is_encrypted v ≡ true → bytes_beq v [] ≡ false
  unfolding is_encrypted bytes_beq has_prefix
  encrypted_given [] e = cc
  encrypted_given (b ∷ v) e = refl

  -- For a host with password authentication whose password is stored encrypted, a call with no master
  -- password cached asks for it, and where the user types the one it was encrypted under, which is not
  -- empty, the first password tried is the one that was encrypted.
  pub tried-encrypt :
      (salt nonce master plain : Bytes) (a : Option Bytes) (answers : List (Option Bytes))
      → length salt ≡ salt_len
      → length nonce ≡ nonce_len
      → AreBytes salt
      → AreBytes nonce
      → AreBytes plain
      → bytes_beq master [] ≡ false
      → bytes_beq h.auth_type auth_type_password ≡ true
      → encrypt aead (some salt) (some nonce) master plain ≡ ok h.password
      → (rest : List Bytes) × ((connect_sftp aead dial h
            (some master ∷ a ∷ answers)
            []
            []
            false).tried
          ≡ plain ∷ rest)
  tried-encrypt salt nonce master plain a answers hs hn bs bn bp m t stored =
      let (v, made, enc, dec) = decrypt-encrypt aead salt nonce master plain hs hn bs bn bp in
      let same : h.password ≡ v = cc in
      let given = encrypted_given v enc in
      (
        (after_reply master false (dial plain) (some a) (connect_sftp aead dial h answers)).tried,
        unfold connect_sftp in
            rw
              (
                ask_choice v t same given enc,
                decrypted_choice v master plain t same given enc m dec,
              )
              refl,
      )

-- ===== src/Schtasks/Tasks/Prompts.antt =====
-- How often userCredentials asks for the password.
use resticprofile.Base.{
  ◌+◌, ◌≡◌, refl, ap, ◌∙◌, Bool, true, false, not, [], some, if◌then◌else◌, Text, Bool-cases, ◌⊎◌,
  none, inl, inr,
}
use resticprofile.Text.{text_eq}
use resticprofile.Schtasks.Tasks.{Person, Credentials, user_credentials, after_prompt, ask_user}

-- With a name in the cache there is no prompt.
cached :
    (p : Person) (c : Credentials)
    → text_eq c.user_name [] ≡ false
    → user_credentials p c ≡ (c, some (c.user_name, c.user_password))
unfolding user_credentials
cached p c h =
    ap
      (λ b. if not b then (c, some (c.user_name, c.user_password)) else ask_user p p.current_user c)
      h

-- What the prompt leaves in the cache.
abbrev pub asked : Text → Text → Credentials → Credentials
asked name password c = record {
  user_name = name;
  user_password = password;
  prompts = c.prompts + 1;
}

-- Both calls, by what is in the cache and what the prompt answers.
abbrev pub Calls : Person → Credentials → Text → Type 0
Calls p c name =
    ((text_eq c.user_name [] ≡ false)
      × (user_credentials p c ≡ (c, some (c.user_name, c.user_password))))
    ⊎ ((text_eq c.user_name [] ≡ true)
        × ((password : Text) × (((p.read_password c.prompts ≡ (password, false))
                × ((user_credentials p c ≡ (asked name password c, some (name, password)))
                    × (user_credentials p (asked name password c)
                        ≡ (asked name password c, some (name, password)))))
              ⊎ ((p.read_password c.prompts ≡ (password, true))
                  × ((user_credentials p c ≡ (asked name password c, none))
                      × (user_credentials p (asked name password c)
                          ≡ (asked name password c, some (name, password))))))))

-- For a user whose name is not empty: with a name in the cache, userCredentials returns the cache and
-- asks for nothing. Otherwise it asks once. A password that was read is returned and kept, so that the
-- next call returns it without a prompt; after a prompt that failed the call returns an error, and the
-- next call returns what the prompt has left, without a prompt and without an error.
pub user_credentials-once :
    (p : Person) (c : Credentials) (name : Text)
    → p.current_user ≡ some name
    → text_eq name [] ≡ false
    → Calls p c name
unfolding user_credentials ask_user after_prompt
user_credentials-once p c name user named = elim (Bool-cases (text_eq c.user_name [])) [
  | inr e ↦ inl (e, cached p c e)
  | inl e ↦
      let answer = p.read_password c.prompts in
      let asks : user_credentials p c ≡ after_prompt name answer c =
        ap
          (λ b.
            if not b then (c, some (c.user_name, c.user_password)) else ask_user p p.current_user c)
          e
        ∙ ap (λ o. ask_user p o c) user in
      inr (e, by_answer answer refl asks)
]
  where
    by_answer :
        (answer : Text × Bool)
        → p.read_password c.prompts ≡ answer
        → user_credentials p c ≡ after_prompt name answer c
        → (password : Text) × (((p.read_password c.prompts ≡ (password, false))
              × ((user_credentials p c ≡ (asked name password c, some (name, password)))
                  × (user_credentials p (asked name password c)
                      ≡ (asked name password c, some (name, password)))))
            ⊎ ((p.read_password c.prompts ≡ (password, true))
                × ((user_credentials p c ≡ (asked name password c, none))
                    × (user_credentials p (asked name password c)
                        ≡ (asked name password c, some (name, password))))))
    by_answer (password, false) r asks =
        (password, inl (r, (asks, cached p (asked name password c) named)))
    by_answer (password, true) r asks =
        (password, inr (r, (asks, cached p (asked name password c) named)))

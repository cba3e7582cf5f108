-- ===== src/Ssh/Auth/Laws.antt =====
-- The outcomes of `buildAuth` of internal/ssh/sftp.go.
use lazyssh.Base.{Bool, false, List, [], ◌++◌, Bytes, ◌≡◌, ◌≢◌, arith}
use lazyssh.Base.Result.{Result, ok, err}
use lazyssh.Model.{Host}
use lazyssh.Ssh.Auth.{
  Method, AuthEnv, AuthError, no_method, agent_auth, default_keys, password_methods,
}

-- The agent's connection is open exactly where the agent gives a method.
AgentSound : List Method × Bool → Type 0
AgentSound (ms, agent) = agent ≡ false → ms ≡ []

agent_auth-AgentSound : (env : AuthEnv) → AgentSound (agent_auth env)
unfolding agent_auth AgentSound
agent_auth-AgentSound env = ground arith

-- All the methods, in the order in which they are offered.
abbrev pub offered : AuthEnv → Host → Bytes → List Method → List Method
offered env h pwd ks = (agent_auth env).0 ++ (ks ++ (default_keys env h ++ password_methods pwd))

abbrev pub Outcome :
    AuthEnv
    → Host
    → Bytes
    → Result AuthError (List Method)
    → Bool × Result AuthError (List Method)
    → Type 0
Outcome env h pwd (err e) out = out ≡ (false, err e)
Outcome env h pwd (ok ks) (agent, err e) =
    (agent ≡ false) × (e ≡ no_method) × (offered env h pwd ks ≡ [])
Outcome env h pwd (ok ks) (agent, ok ms) =
    (ms ≡ offered env h pwd ks) × (ms ≢ []) × (agent ≡ (agent_auth env).1)

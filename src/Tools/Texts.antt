-- ===== src/Tools/Texts.antt =====
-- The descriptions of src/tools.rs, in pieces of at most a line.
use Prim.Native.String.{String}
use scriptorium.Text.{Text, codes}
use scriptorium.Base.{List, [], ◌∷◌, ◌++◌}

-- The pieces put together.
unfoldable pub joined_pieces : List String → Text
joined_pieces [] = []
joined_pieces (s ∷ rest) = codes s ++ joined_pieces rest

unfoldable pub execute_shell_description : Text
execute_shell_description = joined_pieces (
    "Run a shell command inside an isolated, ephemeral sandbox container. Stdout, "
    ∷ "stderr, and exit code are returned synchronously. Use this for scripting, "
    ∷ "data processing, web scraping, browser automation, media conversion, or any "
    ∷ "shell work.\n" ∷ "\n" ∷ "Environment\n" ∷ "───────────\n"
    ∷ "- Debian 13, UTF-8 + zh_CN.UTF-8 locales, Asia/Shanghai tz, Noto CJK + Noto "
    ∷ "Color Emoji + Symbola fonts (the latter is a TrueType-outline emoji fallback "
    ∷ "for renderers that can't embed CBDT bitmap glyphs, e.g. WeasyPrint to PDF, "
    ∷ "matplotlib, Pillow).\n" ∷ "- Non-root user `agent` (UID 1000). cwd is $HOME = /home/agent.\n"
    ∷ "- Root filesystem is READ-ONLY; only $HOME (persistent across calls in this "
    ∷ "session) and /tmp (tmpfs, 2 GiB, per-call ephemeral) are writable.\n"
    ∷ "- Outbound network is open; there is no inbound connectivity.\n"
    ∷ "- Resource caps: 4 vCPU, 8 GiB RAM, 512 PIDs, 5-minute wall-clock default "
    ∷ "(override via `timeout_seconds`).\n" ∷ "\n" ∷ "Pre-installed tools\n"
    ∷ "───────────────────\n"
    ∷ "- Python 3.13 — pandas, numpy, matplotlib, pillow, requests, httpx, "
    ∷ "beautifulsoup4, lxml, openpyxl, weasyprint, playwright, jinja2, pyyaml, " ∷ "tiktoken.\n"
    ∷ "- `uv` / `uvx` (Astral) — the ONLY Python package manager on this image. "
    ∷ "`pip` is intentionally NOT installed; every Python install path below goes "
    ∷ "through `uv`. uv's cache at $HOME/.cache/uv persists for the whole session, "
    ∷ "so re-running the same `uv run --with <pkg>` is near-instant after the first " ∷ "install.\n"
    ∷ "- Node 24 LTS — puppeteer-core, sharp. Globally installed under "
    ∷ "`/usr/lib/node_modules` and exposed via `NODE_PATH`, so ad-hoc `node "
    ∷ "script.js` with `require('sharp')` / `require('puppeteer-core')` works "
    ∷ "without a local `npm install`.\n"
    ∷ "- Browsers: ONLY headless Chromium is preinstalled (via Playwright, cached at "
    ∷ "`/opt/ms-playwright`). Do NOT attempt `playwright install firefox`/`webkit` "
    ∷ "or `puppeteer`-style browser downloads — the cache path is root-owned and the "
    ∷ "installer will fail.\n" ∷ "- Media — ffmpeg, imagemagick (`convert`), exiftool.\n"
    ∷ "- CLI — bash, curl, wget, jq, git, unzip, zip, openssh-client, tree, ripgrep "
    ∷ "(`rg`), fd, openssl, gnupg.\n"
    ∷ "- Data / media utilities — `yt-dlp` (resilient video/audio downloader "
    ∷ "covering YouTube, Bilibili, Douyin/TikTok, Xiaohongshu, and most streaming "
    ∷ "sites; prefer over hand-rolled scraping), `duckdb` (SQL CLI for ad-hoc "
    ∷ "querying of CSV / Parquet / JSON — `duckdb -c \"SELECT ... FROM "
    ∷ "read_csv_auto('file.csv')\"`).\n"
    ∷ "- Bundled doc indexes under `/opt/docs/` (all llms.txt-format — a markdown "
    ∷ "bullet list of doc URLs; grep for the endpoint, then `curl -fsSL <matched "
    ∷ "url>` to fetch the full page). Prefer these over web-searching — they are "
    ∷ "faster, quieter, and already curated:\n"
    ∷ "  - `/opt/docs/feishu-apifox-index.md` — Feishu / Lark: messaging, docs, "
    ∷ "bitable, sheets, calendar, approvals, workspace events, …\n"
    ∷ "  - `/opt/docs/dingtalk-apifox-index.md` — DingTalk: enterprise IM, "
    ∷ "mini-program, workbench, contacts, OA suite.\n"
    ∷ "  - `/opt/docs/douyin-apifox-index.md` — Douyin / TikTok (CN): auth, video, "
    ∷ "commerce, live.\n" ∷ "  - `/opt/docs/bilibili-apifox-index.md` — Bilibili creator + webhook "
    ∷ "endpoints.\n" ∷ "  - `/opt/docs/xiaohongshu-apifox-index.md` — Xiaohongshu (小红书): brand / "
    ∷ "marketing integrations.\n"
    ∷ "  - `/opt/docs/kuaishou-apifox-index.md` — Kuaishou short-video ecosystem.\n"
    ∷ "  Example: `rg -i 'bitable\\|多维表格' /opt/docs/feishu-apifox-index.md | head` → "
    ∷ "pick the URL → `curl -fsSL <url>` → write the integration.\n"
    ∷ "- `build-essential` (gcc, g++, make) is present so uv can compile C-extension "
    ∷ "wheels on the fly.\n"
    ∷ "- Prefer `rg` over `grep -r` and `fd` over `find`: they are an order of "
    ∷ "magnitude faster and respect sensible ignore rules by default.\n" ∷ "\n"
    ∷ "Installing extra Python packages (uv-only)\n"
    ∷ "──────────────────────────────────────────\n"
    ∷ "There is no `pip` on PATH. `python3 -m pip` will also fail. Use uv for "
    ∷ "everything Python-package-shaped:\n" ∷ "\n"
    ∷ "- Ephemeral, one-shot scripts (the default — use this unless you have a "
    ∷ "reason not to): `uv run --with <pkg> --with <pkg2> python script.py`, or for "
    ∷ "inline code `uv run --with <pkg> python - <<'PY' ... PY`. uv creates / reuses "
    ∷ "a cached env under $HOME/.cache/uv; the second invocation with the same "
    ∷ "package set is effectively free.\n"
    ∷ "- Persistent across calls this session: create a venv once with `uv venv "
    ∷ "$HOME/.venv --system-site-packages` (the flag lets the venv see the baseline "
    ∷ "packages like pandas / playwright), then `uv pip install --python "
    ∷ "$HOME/.venv/bin/python <pkg>`. Run scripts with `$HOME/.venv/bin/python "
    ∷ "script.py`, or `source $HOME/.venv/bin/activate` inside a single "
    ∷ "`execute_shell` command.\n"
    ∷ "- Project-scoped with a lockfile: `cd $HOME/<proj> && uv init && uv add "
    ∷ "<pkg>` — pyproject.toml + uv.lock + .venv/ all live in $HOME and survive for "
    ∷ "the rest of the session.\n" ∷ "\n"
    ∷ "If you see a README that tells you to `pip install foo`, mentally translate "
    ∷ "it to `uv pip install --python $HOME/.venv/bin/python foo` (after creating "
    ∷ "that venv) or `uv run --with foo python ...`.\n" ∷ "\n" ∷ "Installing extra Node packages\n"
    ∷ "──────────────────────────────\n"
    ∷ "`npm install --prefix $HOME/.local <pkg>` for persistent installs. "
    ∷ "Globally-installed packages (puppeteer-core, sharp) already resolve via "
    ∷ "NODE_PATH — no re-install needed.\n" ∷ "\n" ∷ "Composing commands\n" ∷ "──────────────────\n"
    ∷ "- INDEPENDENT shell tasks (no ordering / data dependency) should be issued as "
    ∷ "SEPARATE parallel tool calls in a single turn, not fused into one chained " ∷ "command.\n"
    ∷ "- DEPENDENT commands must be chained with `&&` inside ONE call so a failure "
    ∷ "short-circuits — e.g. `mkdir -p $HOME/out && python3 render.py > "
    ∷ "$HOME/out/report.md`.\n"
    ∷ "- Use `;` only when you explicitly want the next command to run even if the "
    ∷ "previous one failed.\n"
    ∷ "- Do NOT use bare newlines to separate commands in the `command` argument; "
    ∷ "chain with `&&` / `;`, or pass a heredoc to `bash -c`.\n"
    ∷ "- Quote paths containing spaces, CJK characters, or other special characters "
    ∷ "with double quotes, e.g. `cat \"$HOME/inputs/年度报告.pdf\"`.\n"
    ∷ "- Each call starts a fresh shell at $HOME. `cd` only affects THAT call's cwd; "
    ∷ "it never persists to the next call — use absolute paths across calls.\n" ∷ "\n"
    ∷ "State persistence\n" ∷ "─────────────────\n"
    ∷ "$HOME contents survive between `execute_shell` calls within the SAME chat "
    ∷ "session — uv's ephemeral-env cache ($HOME/.cache/uv), any venv you create "
    ∷ "under $HOME (e.g. $HOME/.venv or $HOME/<proj>/.venv), user-installed npm "
    ∷ "packages under $HOME/.local, Playwright cookies, intermediate files, and "
    ∷ "ad-hoc scripts all stick. BEFORE installing or downloading, check what is "
    ∷ "already there so you do not repeat work: `ls $HOME/inputs $HOME/outputs "
    ∷ "2>/dev/null`, `which <cli>`, or `python3 -c 'import <pkg>'` first. When the "
    ∷ "session ends the workspace is eventually garbage-collected.\n" ∷ "\n"
    ∷ "Polling, waiting, and long output\n" ∷ "─────────────────────────────────\n"
    ∷ "- Do NOT `sleep` between commands that can run immediately — just run them.\n"
    ∷ "- When polling an external process, use a check command (e.g. `gh run view`, "
    ∷ "`curl -fsS <url>/status`, a short `until ... ; do sleep 2; done` with a "
    ∷ "bounded counter) rather than a long blind `sleep`.\n"
    ∷ "- If a command is likely to produce a lot of output, redirect it to a file "
    ∷ "under `$HOME/outputs/...` first and then print only a small slice (`head`, "
    ∷ "`tail`, `jq`) so the tool response stays compact — this also avoids "
    ∷ "triggering large-output spill (see below).\n" ∷ "\n" ∷ "What you CANNOT do\n"
    ∷ "──────────────────\n"
    ∷ "- `apt install` / `apt-get` / `dpkg` (root FS is read-only and you are not " ∷ "root).\n"
    ∷ "- Write outside $HOME or /tmp.\n"
    ∷ "- Escalate to root, open raw sockets, mount filesystems.\n" ∷ "\n"
    ∷ "Bringing inputs in / handing outputs out\n" ∷ "────────────────────────────────────────\n"
    ∷ "- Inputs: download them inside the command itself (`curl`, `wget`, Python "
    ∷ "`requests`, Node `fetch`) or work on files already present in $HOME.\n"
    ∷ "- Outputs the user should see: hand them to the `deliver` tool ($HOME → "
    ∷ "object storage → PERMANENT URL). NEVER paste raw in-sandbox paths (like "
    ∷ "`$HOME/outputs/foo.pdf`) to the user — they cannot reach that path; only the "
    ∷ "delivered URL is user-visible.\n" ∷ "\n" ∷ "Large output handling\n"
    ∷ "─────────────────────\n"
    ∷ "Some hosts may spill oversized stdout/stderr into a host-side workspace file "
    ∷ "under `sandbox/...` instead of inlining the entire streams. In that case the "
    ∷ "result contains `output_mode=\"workspace_spill\"`, `workspace_path`, "
    ∷ "`char_count`, `line_count`, `preview`, and `message` instead of full "
    ∷ "stdout/stderr. Use the host's normal workspace read/search tools on "
    ∷ "`workspace_path` to inspect the full spill. To avoid hitting spill at all, "
    ∷ "write large output to a file under `$HOME/outputs/...` yourself and only "
    ∷ "print a small summary." ∷ [])

unfoldable pub deliver_description : Text
deliver_description = joined_pieces (
    "Package a file or directory produced in the sandbox, upload it to durable "
    ∷ "object storage, and return a PERMANENT public URL you can paste to the end "
    ∷ "user in your chat response. The URL does not expire — each access "
    ∷ "transparently re-signs a short-lived presign under the hood, so the user can "
    ∷ "revisit it days or weeks later.\n" ∷ "\n" ∷ "Behavior\n" ∷ "────────\n"
    ∷ "- File, compress=false (default): uploaded as-is with a MIME type inferred "
    ∷ "from the file extension.\n"
    ∷ "- File, compress=true: gzipped first, then uploaded as application/gzip.\n"
    ∷ "- Directory: always tar.gz'd into a single archive before upload (regardless "
    ∷ "of `compress`).\n" ∷ "\n" ∷ "Size cap: 1 GiB post-compression.\n" ∷ "\n"
    ∷ "Response fields\n" ∷ "───────────────\n"
    ∷ "- `url` — the PERMANENT public URL. This is the ONLY field you should paste "
    ∷ "into your reply to the user.\n"
    ∷ "- `size_bytes`, `content_type`, `sha256_hex` — metadata for your own "
    ∷ "reasoning (e.g. deciding whether to mention the size to the user). Do NOT "
    ∷ "paste these fields to the user.\n" ∷ "\n" ∷ "When to use\n" ∷ "───────────\n"
    ∷ "- For anything the user asked you to produce and wants to see / download: "
    ∷ "generated reports, charts, spreadsheets, rendered PDFs, edited images, zipped "
    ∷ "project outputs, etc.\n"
    ∷ "- With `label=\"<short description>\"` so the attachment carries a "
    ∷ "human-readable tag in storage-side metadata.\n" ∷ "\n" ∷ "When NOT to use\n"
    ∷ "───────────────\n"
    ∷ "- Throwaway intermediate files — they live in $HOME and are available to "
    ∷ "later `execute_shell` calls for free.\n" ∷ "- Agent-internal state or scratch data.\n"
    ∷ "- Anything containing secrets you wouldn't show the user.\n" ∷ "\n"
    ∷ "Batching multiple related outputs\n" ∷ "─────────────────────────────────\n"
    ∷ "When the user should receive several related files as ONE deliverable (e.g. a "
    ∷ "report plus its assets), write them into a single directory like "
    ∷ "`$HOME/outputs/report-bundle/` and deliver the directory — the user gets one "
    ∷ "URL instead of a wall of links, and file layout is preserved inside the tar.gz.\n" ∷ "\n"
    ∷ "Typical flow: `execute_shell` produces $HOME/outputs/summary.pdf → "
    ∷ "deliver(path=\"outputs/summary.pdf\", label=\"Q3 revenue summary\") → receives "
    ∷ "{url: \"https://...\", size_bytes: 245_760, ...} → reply to the user with just " ∷ "the URL."
    ∷ [])

unfoldable pub copy_workspace_sandbox_to_execution_sandbox_description : Text
copy_workspace_sandbox_to_execution_sandbox_description = joined_pieces (
    "Copy a file or directory from the brand workspace into the execution sandbox "
    ∷ "workspace. Use this when shell work in $HOME needs access to a file the AI "
    ∷ "has in the workspace — a file_extract spill, a memory doc, a staged sandbox "
    ∷ "input, a presentation deck's HTML source, etc.\n" ∷ "\n" ∷ "Rules\n" ∷ "─────\n"
    ∷ "- `source_path` is any workspace path the AI can read: `sandbox/...` (staged "
    ∷ "inputs the AI wrote), `extracts/...` (file_extract spills), `memory/...` "
    ∷ "(brand memory documents), `presentations/<deck_id>/index.html` (deck "
    ∷ "sources), and so on. The file is streamed into the sandbox as-is; the "
    ∷ "workspace copy is not modified.\n"
    ∷ "- `target_path` lands inside the execution sandbox at `$HOME/<target_path>`.\n"
    ∷ "- Files are copied as-is to `target_path`.\n"
    ∷ "- Directories are packaged as tar.gz, transferred, then extracted so "
    ∷ "`target_path` becomes the copied directory root.\n"
    ∷ "- Existing targets at `target_path` are replaced.\n" ∷ "\n" ∷ "Typical flows:\n"
    ∷ "- file_extract spilled a large doc into `extracts/<ts>-xxx.md` → "
    ∷ "copy_workspace_sandbox_to_execution_sandbox(source_path=\"extracts/<ts>-xxx.md\""
    ∷ ", target_path=\"inputs/novel.md\") → execute_shell reads $HOME/inputs/novel.md.\n"
    ∷ "- AI staged a prompt at `sandbox/prompt.txt` via workspace tools → "
    ∷ "copy_workspace_sandbox_to_execution_sandbox(source_path=\"sandbox/prompt.txt\", "
    ∷ "target_path=\"inputs/prompt.txt\") → execute_shell reads $HOME/inputs/prompt.txt." ∷ [])

unfoldable pub copy_execution_sandbox_to_workspace_sandbox_description : Text
copy_execution_sandbox_to_workspace_sandbox_description = joined_pieces (
    "Copy a file or directory from the execution sandbox back into the brand "
    ∷ "workspace `sandbox/` exchange folder. Use this when shell work produced an "
    ∷ "output that should be inspected, searched, or edited with the host's normal "
    ∷ "workspace tools.\n" ∷ "\n" ∷ "Rules\n" ∷ "─────\n"
    ∷ "- `target_path` MUST point to `sandbox/...` inside the brand workspace.\n"
    ∷ "- `source_kind` must be `file` or `directory` because the execution sandbox "
    ∷ "does not expose a separate stat tool.\n"
    ∷ "- Files are copied straight to `target_path`; directories are extracted so "
    ∷ "`target_path` becomes the copied directory root.\n"
    ∷ "- Existing targets at `target_path` are replaced.\n" ∷ "\n"
    ∷ "Typical flow: execute_shell writes $HOME/outputs/report.md → "
    ∷ "copy_execution_sandbox_to_workspace_sandbox(source_path=\"outputs/report.md\", "
    ∷ "source_kind=\"file\", target_path=\"sandbox/report.md\") → inspect or rewrite "
    ∷ "`sandbox/report.md` with the host's workspace tools." ∷ [])
